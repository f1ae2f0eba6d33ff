-- ===== src/Hash.antt =====
-- src/hash.rs: digests in lowercase hex, over those of the `hmac` and `sha2` crates.
use jwc_lang.Naming.Generated.{hex_2}
use jwc_lang.Prelude.{Bytes}

unfoldable pub to_hex : Bytes → Bytes
to_hex = hex_2

module _ (hmac_sha256 : Bytes → Bytes → Bytes) where
  unfoldable pub hmac_sha256_hex : Bytes → Bytes → Bytes
  unfolding to_hex
  hmac_sha256_hex key msg = to_hex (hmac_sha256 key msg)
