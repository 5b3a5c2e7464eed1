-- ===== src/DeviceAuth/Credentials/Digests.antt =====
-- credentials.py: the digests of pairing codes and of token secrets.
use us_stock_helper.Prelude.{Text, text_eq, codes, Option, none, some}
use us_stock_helper.DeviceAuth.Errors.{Result, ok, raised, guard, ◌>>◌, schema_unsupported}
use us_stock_helper.DeviceAuth.Credentials.Scrypt.{ScryptParameters}

-- `hashlib.scrypt`, where `none` is its `ValueError`, and `hmac.new(salt, secret, sha256).digest()`.
pub record Digests : Type 0 where
  pub scrypt : Text → Text → ScryptParameters → Option Text
  pub hmac_sha256 : Text → Text → Text

abbrev pub token_algorithm : Text
token_algorithm = codes "hmac-sha256"

unfoldable pub code_hash : Digests → Text → Text → ScryptParameters → Result Text
code_hash d code salt parameters = elim (d.scrypt code salt parameters) [
  | none ↦ raised schema_unsupported
  | some digest ↦ ok digest
]

unfoldable pub token_hash : Digests → Text → Text → Text → Result Text
token_hash d salt secret algorithm = do
  guard (text_eq algorithm token_algorithm) schema_unsupported
  ok (d.hmac_sha256 salt secret)
