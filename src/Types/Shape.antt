-- ===== src/Types/Shape.antt =====
-- src/types.rs: the methods of `Ty` that look at one type.
use jwc_lang.Prelude.{Bool, true, false, Option, none, some}
use jwc_lang.Types.{Scalar, Ty, Fields, scalar, record_of, raw, array, optional, null, unknown}

unfoldable pub opt : Ty → Ty
opt (optional t) = optional t
opt unknown = unknown
opt null = null
opt t = optional t

unfoldable pub is_optional : Ty → Bool
is_optional (optional _) = true
is_optional null = true
is_optional _ = false

unfoldable pub strip_opt : Ty → Ty
strip_opt (optional inner) = inner
strip_opt null = unknown
strip_opt t = t

-- `Ty::scalar`
unfoldable pub as_scalar : Ty → Option Scalar
as_scalar (scalar s) = some s
as_scalar _ = none

unfoldable pub is_raw : Ty → Bool
is_raw raw = true
is_raw (array inner) = is_raw inner
is_raw (optional inner) = is_raw inner
is_raw _ = false

unfoldable pub fields : Ty → Option Fields
fields (record_of f) = some f
fields (optional inner) = fields inner
fields (array inner) = fields inner
fields _ = none

unfoldable pub element : Ty → Option Ty
element (array inner) = some inner
element (optional inner) = element inner
element _ = none
