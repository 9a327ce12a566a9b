-- ===== src/Golib.antt =====
-- What the program calls of Go's standard library and of google/uuid: parameters, not modelled.
use Prim.Native.String.{len}
use nebula_gc.Prelude.{ℕ, ◌+◌, ◌*◌, ◌/◌, ◌≡◌, ◌≢◌, String, Bool, Option, some, List, length}

pub record Golib : Type 0 where
  -- crypto/rand `Read` of so many bytes; `none` is its error
  pub random : ℕ → Option (List ℕ)
  -- base64.URLEncoding.EncodeToString
  pub encode : List ℕ → String
  -- HMAC-SHA256 of a message under a key, in hex
  pub hmac : String → String → String
  -- strings.TrimSpace
  pub trim_space : String → String
  -- net.ParseCIDR and net.ParseIP succeed
  pub parse_cidr : String → Bool
  pub parse_ip : String → Bool
  -- encoding/json of a list of strings; Marshal of one never fails
  pub marshal : List String → String
  pub unmarshal : String → Option (List String)

-- `Read` fills the buffer, and base64 gives 4 characters for each 3 bytes begun.
pub record IsRandom (go : Golib) : Type 0 where
  pub fills : (n : ℕ) (b : List ℕ) → go.random n ≡ some b → length b ≡ n
  pub encode_len : (b : List ℕ) → len (go.encode b) ≡ 4 * ((length b + 2) / 3)

-- Unmarshal inverts Marshal on the list, and its text is not empty.
pub record IsJson (go : Golib) (ss : List String) : Type 0 where
  pub unmarshal-marshal : go.unmarshal (go.marshal ss) ≡ some ss
  pub marshal-ne : go.marshal ss ≢ ""
