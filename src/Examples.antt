-- ===== src/Examples.antt =====
-- Concrete inputs: the libraries as small functions, two nodes of a cluster, and the properties on
-- them.
mod Registries
mod Nodes
mod Bundles
mod Daemons
mod Limits
mod Requests
mod Lighthouses
mod Installs
use Prim.Native.String.{len, ◌∷◌ as str_cons}
use Prim.Native.String.len
use nebula_gc.Prelude.{
  ℕ, zero, suc, ◌+◌, ◌-◌, ◌*◌, ◌/◌, ◌%◌, ◌≤◌, ◌<◌, String, ◌≡◌, refl, sym, ap, subst, ◌∙◌, ◌≢◌, ◌↔◌,
  ◌⊎◌, inl, inr, Bool, true, false, not, ◌&&◌, ◌||◌, Option, none, some, List, [], ◌∷◌, ◌++◌, map,
  arith, str_eq, eq_iff, eq_refl, ltb, leb, ◌==◌, if◌then◌else◌, ltb→lt, lt→ltb, leb→le, le→leb,
  Bool-cases, Option-cases, length, head?, take, drop, all, any, length-append, length-take-le, All,
  All-append,
}
use nebula_gc.Exec.{Faults}
use nebula_gc.Golib.{Golib, IsRandom}
use nebula_gc.Store.{Cluster, Node, Bundle, Db}

abbrev pub no_faults : Faults
no_faults k = false

abbrev pub zeros : ℕ → List ℕ
zeros zero = []
zeros (suc n) = 0 ∷ zeros n

abbrev pub letters : ℕ → String
letters zero = ""
letters (suc n) = str_cons "A" (letters n)

abbrev only : List String → String
only (s ∷ []) = s
only _ = "?"

-- Bytes of 0 in place of random ones, a text in place of its hash, and JSON of one route only.
abbrev pub go : Golib
go = record {
  random = λ n. some (zeros n);
  encode = λ b. letters (4 * ((length b + 2) / 3));
  hmac = λ secret message. message;
  trim_space = λ s. s;
  parse_cidr = λ s. not (str_eq s "");
  parse_ip = λ s. not (str_eq s "");
  marshal = only;
  unmarshal = λ s. some (s ∷ []);
}

len-letters : (n : ℕ) → len (letters n) ≡ n
len-letters zero = len.nil
len-letters (suc n) = len.cons "A" (letters n) ∙ omega (arith, len-letters n)

length-zeros : (n : ℕ) → length (zeros n) ≡ n
length-zeros zero = refl
length-zeros (suc n) = omega (arith, length-zeros n)

pub go-IsRandom : IsRandom go
go-IsRandom = record {
  fills = λ n b e. sym (ap (λ o. elim o [ none ↦ 0 | some c ↦ length c ]) e) ∙ length-zeros n;
  encode_len = λ b. len-letters (4 * ((length b + 2) / 3));
}

abbrev pub cluster : Cluster
cluster = record {
  id = "c";
  tenant_id = "t";
  cluster_token_hash = "cluster";
  provide_lighthouse = false;
  config_version = 4;
}

abbrev pub node : String → String → Node
node id token = record {
  id = id;
  tenant_id = "t";
  cluster_id = "c";
  name = id;
  is_admin = true;
  token_hash = token;
  mtu = 1300;
  routes = none;
  routes_updated_at = none;
  is_lighthouse = false;
  lighthouse_public_ip = none;
  lighthouse_port = none;
  is_relay = false;
  lighthouse_relay_updated_at = none;
  created_at = 7;
}

abbrev pub bundle : ℕ → Bundle
bundle version = record {
  tenant_id = none;
  cluster_id = "c";
  version = version;
  content = 1 ∷ [];
  created_at = 8;
}

abbrev pub db : Db
db = record {
  clusters = cluster ∷ [];
  nodes = node "a" "old" ∷ node "b" "other" ∷ [];
  bundles = bundle 3 ∷ [];
}
