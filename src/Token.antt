-- ===== src/Token.antt =====
-- pkg/token/generator.go: tokens, their hashes, and the tests on them.
pub mod Laws
use Prim.Native.String.{len}
use nebula_gc.Prelude.{ℕ, String, Bool, Option, none, some, List, ltb, str_eq, if◌then◌else◌}
use nebula_gc.Errors.{Result, ok, err, failed}
use nebula_gc.Golib.{Golib}

abbrev pub min_token_length : ℕ
min_token_length = 41

abbrev pub default_token_bytes : ℕ
default_token_bytes = 32

module _ (go : Golib) where
  abbrev encoded : Option (List ℕ) → Result String
  encoded none = err (failed "failed to generate random bytes")
  encoded (some b) =
      let token = go.encode b in
      if ltb (len token) min_token_length
      then err (failed "generated token too short")
      else ok token

  unfoldable pub generate_with_length : ℕ → Result String
  generate_with_length num_bytes =
      if ltb num_bytes default_token_bytes
      then err (failed "token length must be at least 32 bytes")
      else encoded (go.random num_bytes)

  unfoldable pub generate : Result String
  unfolding generate_with_length
  generate = generate_with_length default_token_bytes

  unfoldable pub hash : String → String → String
  hash token secret = go.hmac secret token

  -- `hmac.Equal` of the two hex texts
  unfoldable pub validate : String → String → String → Bool
  validate provided secret stored_hash = str_eq (hash provided secret) stored_hash

-- Whether `ValidateLength` returns an error
unfoldable pub is_too_short : String → Bool
is_too_short token = ltb (len token) min_token_length
