-- ===== src/Cursor/Tests.antt =====
-- Cursors of src/cursor.rs, over a digest, a base64 and a JSON that do little.
use jwc_lang.Cursor.Compare.{constant_time_eq_iff}
use jwc_lang.Cursor.Signed.{decode_only_signed, decode-encode}
use jwc_lang.Cursor.{
  Keys, constant_time_eq, difference, xor_bits, or_bits, encode, decode, verified, rsplit_once,
  body_of, keys_of, split_once, is_version,
}
use jwc_lang.Hash.{hmac_sha256_hex, to_hex}
use jwc_lang.Prelude.{
  Bytes, codes, Option, none, some, [], ◌∷◌, ◌++◌, take, ◌≡◌, ◌↔◌, refl, arith, true,
}

abbrev digest : Bytes → Bytes → Bytes
digest key msg = take 2 (key ++ msg)

abbrev written : Keys → Option Bytes
written (some key ∷ []) = some key
written _ = none

abbrev read : Bytes → Option Keys
read text = some (some text ∷ [])

abbrev plain : Bytes → Bytes
plain text = text

abbrev plain_back : Bytes → Option Bytes
plain_back text = some text

abbrev one_key : Keys
one_key = some (codes "42") ∷ []

abbrev signed : Bytes
signed = codes "v1.42.6b65"

encoded : encode digest written plain (codes "key") one_key ≡ signed
unfolding encode body_of hmac_sha256_hex to_hex
encoded = refl

forged : decode digest read plain_back (codes "key") (codes "v1.43.6b66") ≡ none
unfolding decode verified rsplit_once constant_time_eq difference xor_bits or_bits hmac_sha256_hex
    to_hex
forged = refl

decoded : decode digest read plain_back (codes "key") signed ≡ some one_key
unfolding decode verified rsplit_once constant_time_eq difference xor_bits or_bits hmac_sha256_hex
    to_hex keys_of split_once is_version
decoded = refl

decode-encode_example :
    decode digest read plain_back (codes "key") (encode digest written plain (codes "key") one_key)
    ≡ some one_key
decode-encode_example =
    decode-encode digest read plain_back written plain (codes "key") one_key (codes "42") refl refl
      refl

decode_only_signed_example :
    (body : Bytes) × (signed ≡ body ++ b'.' ∷ hmac_sha256_hex digest (codes "key") body)
    × (keys_of read plain_back body ≡ some one_key)
decode_only_signed_example =
    decode_only_signed digest read plain_back (codes "key") signed one_key (omega arith) decoded

constant_time_eq_iff_example :
    (constant_time_eq (codes "6b65") (codes "6b66") ≡ true) ↔ (codes "6b65" ≡ codes "6b66")
constant_time_eq_iff_example =
    constant_time_eq_iff (codes "6b65") (codes "6b66") (omega arith) (omega arith)
