-- ===== src/Cursor/Signed.antt =====
-- src/cursor.rs: `encode` and `decode` together.
use jwc_lang.Cursor.Compare.{IsByte, constant_time_eq_refl, constant_time_eq_iff}
use jwc_lang.Cursor.{
  Keys, is_version, split_once, rsplit_once, constant_time_eq, body_of, encode, keys_of, verified,
  decode,
}
use jwc_lang.Hash.{to_hex, hmac_sha256_hex}
use jwc_lang.Naming.Generated.{hex_2}
use jwc_lang.Prelude.{
  ℕ, true, false, Option, none, some, [], ◌∷◌, ◌++◌, ◌≡◌, refl, ap, ◌∙◌, subst, arith, ◌==◌, Bytes,
  All, Bool-cases, Option-cases, inl, inr,
}

abbrev IsNotPoint : ℕ → Type 0
IsNotPoint c = (c == b'.') ≡ false

rsplit_once-none : (b : Bytes) → All IsNotPoint b → rsplit_once b'.' b ≡ none
unfolding rsplit_once
rsplit_once-none [] h = refl
rsplit_once-none (c ∷ b) h = rw (rsplit_once-none b h.1, h.0) refl

-- The last point is the one before a text without points.
rsplit_once-append :
    (a b : Bytes) → All IsNotPoint b → rsplit_once b'.' (a ++ b'.' ∷ b) ≡ some (a, b)
unfolding rsplit_once
rsplit_once-append [] b h = rw (rsplit_once-none b h) refl
rsplit_once-append (c ∷ a) b h = rw (rsplit_once-append a b h) refl

rsplit_once_inv : (s a b : Bytes) → rsplit_once b'.' s ≡ some (a, b) → s ≡ a ++ b'.' ∷ b
unfolding rsplit_once
rsplit_once_inv [] a b e = cc
rsplit_once_inv (c ∷ s) a b e = elim (Option-cases (rsplit_once b'.' s)) [
  | inl none_behind ↦ elim (Bool-cases (c == b'.')) [
    | inl point ↦
        let same : ◌≡◌ {A = Option (Bytes × Bytes)} (some ([], s)) (some (a, b)) =
          rw (none_behind, point) at e in
        ground arith
    | inr other ↦
        let same : ◌≡◌ {A = Option (Bytes × Bytes)} none (some (a, b)) =
          rw (none_behind, other) at e in
        ground arith
  ]
  | inr ((a', t), found) ↦
      let same : ◌≡◌ {A = Option (Bytes × Bytes)} (some (c ∷ a', t)) (some (a, b)) =
        rw found at e in
      let ih = rsplit_once_inv s a' t found in ground arith
]

hex_2-IsNotPoint : (bs : Bytes) → All IsNotPoint (hex_2 bs)
hex_2-IsNotPoint [] = tt
hex_2-IsNotPoint (b ∷ bs) = (ground arith, (ground arith, hex_2-IsNotPoint bs))

hex_2-IsByte : (bs : Bytes) → All IsByte (hex_2 bs)
hex_2-IsByte [] = tt
hex_2-IsByte (b ∷ bs) = (ground arith, (ground arith, hex_2-IsByte bs))

All-behind : (a b : Bytes) (c : ℕ) → All IsByte (a ++ c ∷ b) → All IsByte b
All-behind [] b c h = h.1
All-behind (x ∷ a) b c h = All-behind a b c h.1

module _ (hmac_sha256 : Bytes → Bytes → Bytes) (from_json : Bytes → Option Keys)
    (base64_decode : Bytes → Option Bytes) where
  mac-IsNotPoint : (secret body : Bytes) → All IsNotPoint (hmac_sha256_hex hmac_sha256 secret body)
  unfolding hmac_sha256_hex to_hex
  mac-IsNotPoint secret body = hex_2-IsNotPoint (hmac_sha256 secret body)

  mac-IsByte : (secret body : Bytes) → All IsByte (hmac_sha256_hex hmac_sha256 secret body)
  unfolding hmac_sha256_hex to_hex
  mac-IsByte secret body = hex_2-IsByte (hmac_sha256 secret body)

  -- A body with its signature is read as the body.
  decode_of_signed :
      (secret body : Bytes)
      → decode hmac_sha256 from_json base64_decode secret
          (body ++ b'.' ∷ hmac_sha256_hex hmac_sha256 secret body)
        ≡ keys_of from_json base64_decode body
  unfolding decode verified
  decode_of_signed secret body =
      let mac = hmac_sha256_hex hmac_sha256 secret body in
      rw (rsplit_once-append body mac (mac-IsNotPoint secret body), constant_time_eq_refl mac) refl

  verified_inv :
      (secret : Bytes) (o : Option (Bytes × Bytes)) (keys : Keys)
      → verified hmac_sha256 from_json base64_decode secret o ≡ some keys
      → (body : Bytes) × (mac : Bytes) × (o ≡ some (body, mac))
        × (constant_time_eq mac (hmac_sha256_hex hmac_sha256 secret body) ≡ true)
        × (keys_of from_json base64_decode body ≡ some keys)
  unfolding verified
  verified_inv secret none keys e = cc
  verified_inv secret (some (body, mac)) keys e =
      let mac' = hmac_sha256_hex hmac_sha256 secret body in
      elim (Bool-cases (constant_time_eq mac mac')) [
        | inl same ↦ (body, mac, refl, same, rw same at e)
        | inr other ↦ let none_read : ◌≡◌ {A = Option Keys} none (some keys) = rw other at e in cc
      ]

  -- A cursor of bytes that is read is a body with the signature of the secret, and its keys are the body's.
  pub decode_only_signed :
      (secret cursor : Bytes) (keys : Keys)
      → All IsByte cursor
      → decode hmac_sha256 from_json base64_decode secret cursor ≡ some keys
      → (body : Bytes) × (cursor ≡ body ++ b'.' ∷ hmac_sha256_hex hmac_sha256 secret body)
        × (keys_of from_json base64_decode body ≡ some keys)
  unfolding decode
  decode_only_signed secret cursor keys bytes e =
      let (body, mac, found, same, read) = verified_inv secret _ keys e in
      let splits = rsplit_once_inv cursor body mac found in
      let mac_bytes = All-behind body mac b'.' (subst (All IsByte) splits bytes) in
      let equal = (constant_time_eq_iff mac _ mac_bytes (mac-IsByte secret body)).0 same in
      (body, splits ∙ ap (λ t. body ++ b'.' ∷ t) equal, read)

  -- The keys that were signed are read back, where the JSON and the base64 of the other crates read
  -- back what they wrote of them.
  pub decode-encode :
      (to_json : Keys → Option Bytes) (base64 : Bytes → Bytes) (secret : Bytes) (keys : Keys)
      (payload : Bytes)
      → to_json keys ≡ some payload
      → from_json payload ≡ some keys
      → base64_decode (base64 payload) ≡ some payload
      → decode hmac_sha256 from_json base64_decode secret
          (encode hmac_sha256 to_json base64 secret keys)
        ≡ some keys
  unfolding encode body_of keys_of split_once is_version
  decode-encode to_json base64 secret keys payload written read back =
      decode_of_signed secret (body_of to_json base64 keys) ∙ rw (written, back, read) refl
