-- ===== src/Cursor.antt =====
-- src/cursor.rs: signed cursors. The digest, the base64 and the JSON of other crates are parameters.
pub mod Compare
pub mod Signed
mod Tests
use jwc_lang.Hash.{hmac_sha256_hex}
use jwc_lang.Prelude.{
  ℕ, zero, suc, ◌+◌, ◌*◌, ◌/◌, ◌%◌, Bool, true, false, not, ◌&&◌, Option, none, some, List, [], ◌∷◌,
  ◌++◌, length, ◌==◌, if◌then◌else◌, Bytes, codes,
}

-- `x ^ y` and `x | y` on `w` bits
unfoldable pub xor_bits : ℕ → ℕ → ℕ → ℕ
xor_bits zero x y = 0
xor_bits (suc w) x y = (if x % 2 == y % 2 then 0 else 1) + 2 * xor_bits w (x / 2) (y / 2)

unfoldable pub or_bits : ℕ → ℕ → ℕ → ℕ
or_bits zero x y = 0
or_bits (suc w) x y = (if x % 2 == 0 && y % 2 == 0 then 0 else 1) + 2 * or_bits w (x / 2) (y / 2)

-- `for (x, y) in a.iter().zip(b) { diff |= x ^ y }`
unfoldable pub difference : ℕ → Bytes → Bytes → ℕ
difference diff (x ∷ a) (y ∷ b) = difference (or_bits 8 diff (xor_bits 8 x y)) a b
difference diff _ _ = diff

unfoldable pub constant_time_eq : Bytes → Bytes → Bool
unfolding difference
constant_time_eq a b = if not (length a == length b) then false else difference 0 a b == 0

-- `str::split_once` and `str::rsplit_once`, at an ASCII character
unfoldable pub split_once : ℕ → Bytes → Option (Bytes × Bytes)
split_once d [] = none
split_once d (c ∷ cs) =
    let later : Option (Bytes × Bytes) = elim (split_once d cs) [
      | none ↦ none
      | some (a, b) ↦ some (c ∷ a, b)
    ] in
    if c == d then some ([], cs) else later

unfoldable pub rsplit_once : ℕ → Bytes → Option (Bytes × Bytes)
rsplit_once d [] = none
rsplit_once d (c ∷ cs) = elim (rsplit_once d cs) [
  | some (a, b) ↦ some (c ∷ a, b)
  | none ↦ if c == d then some ([], cs) else none
]

abbrev pub Keys : Type 0
Keys = List (Option Bytes)

-- `version != VERSION`
unfoldable pub is_version : Bytes → Bool
is_version (a ∷ b ∷ []) = a == b'v' && b == b'1'
is_version _ = false

-- the signed part
unfoldable pub body_of : (Keys → Option Bytes) → (Bytes → Bytes) → Keys → Bytes
body_of to_json base64 keys =
    let payload : Bytes = elim (to_json keys) [ none ↦ codes "[]" | some j ↦ j ] in
    codes "v1" ++ b'.' ∷ base64 payload

-- behind the check of the signature
unfoldable pub keys_of : (Bytes → Option Keys) → (Bytes → Option Bytes) → Bytes → Option Keys
keys_of from_json base64_decode body = elim (split_once b'.' body) [
  | none ↦ none
  | some (version, payload) ↦
      if not (is_version version)
      then none
      else elim (base64_decode payload) [ none ↦ none | some bytes ↦ from_json bytes ]
]

module _ (hmac_sha256 : Bytes → Bytes → Bytes) where
  unfoldable pub encode : (Keys → Option Bytes) → (Bytes → Bytes) → Bytes → Keys → Bytes
  encode to_json base64 secret keys =
      let body = body_of to_json base64 keys in
      body ++ b'.' ∷ hmac_sha256_hex hmac_sha256 secret body

  -- on the body and the signature
  unfoldable pub verified :
      (Bytes → Option Keys) → (Bytes → Option Bytes) → Bytes → Option (Bytes × Bytes) → Option Keys
  verified from_json base64_decode secret none = none
  verified from_json base64_decode secret (some (body, mac)) =
      if not (constant_time_eq mac (hmac_sha256_hex hmac_sha256 secret body))
      then none
      else keys_of from_json base64_decode body

  unfoldable pub decode :
      (Bytes → Option Keys) → (Bytes → Option Bytes) → Bytes → Bytes → Option Keys
  unfolding verified
  decode from_json base64_decode secret cursor =
      verified from_json base64_decode secret (rsplit_once b'.' cursor)
