-- ===== src/Types/Display.antt =====
-- src/types.rs: how a type is printed. Declared names are ASCII.
use jwc_lang.Prelude.{Bytes, codes, ◌++◌, []}
use jwc_lang.Types.Scalars.{name}
use jwc_lang.Types.{
  Ty, Fields, scalar, enum, class, record_of, raw, array, optional, response, null, void, unknown,
  end, field,
}

unfoldable mutual
  unfolding name

  pub shown : Ty → Bytes
  shown (scalar s) = codes (name s)
  shown (enum n) = codes n
  shown (class n) = codes n
  shown (record_of f) = codes "{ " ++ (shown_fields f ++ codes " }")
  shown raw = codes "raw"
  shown (array t) = shown t ++ codes "[]"
  shown (optional t) = shown t ++ codes "?"
  shown response = codes "response"
  shown null = codes "null"
  shown void = codes "void"
  shown unknown = codes "?"

  -- the fields, with a comma before each but the first
  pub shown_fields : Fields → Bytes
  shown_fields end = []
  shown_fields (field n t rest) = codes n ++ (codes ": " ++ (shown t ++ shown_rest rest))

  pub shown_rest : Fields → Bytes
  shown_rest end = []
  shown_rest (field n t rest) =
      codes ", " ++ (codes n ++ (codes ": " ++ (shown t ++ shown_rest rest)))
