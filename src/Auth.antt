-- ===== src/Auth.antt =====
-- server/internal/api/middleware/auth.go and replica.go: the gates before the handlers. A gate
-- answers with a status, or goes on with what it has set in the context of the request. A header
-- that is not sent is the empty text.
pub mod Tokens
pub mod Writes
use nebula_gc.Prelude.{
  ℕ, zero, suc, ◌+◌, ◌-◌, ◌*◌, ◌/◌, ◌%◌, ◌≤◌, ◌<◌, String, ◌≡◌, refl, sym, ap, subst, ◌∙◌, ◌≢◌, ◌↔◌,
  ◌⊎◌, inl, inr, Bool, true, false, not, ◌&&◌, ◌||◌, Option, none, some, List, [], ◌∷◌, ◌++◌, map,
  arith, str_eq, eq_iff, eq_refl, ltb, leb, ◌==◌, if◌then◌else◌, ltb→lt, lt→ltb, leb→le, le→leb,
  Bool-cases, Option-cases, length, head?, take, drop, all, any, length-append, length-take-le, All,
  All-append,
}
use nebula_gc.Errors.{Result, ok, err}
use nebula_gc.Exec.{Faults}
use nebula_gc.Sql.{find}
use nebula_gc.Golib.{Golib}
use nebula_gc.Token
use nebula_gc.Store.{Cluster, Node, Db}

pub record Context : Type 0 where
  pub tenant_id : Option String
  pub cluster_id : Option String
  pub node_id : Option String
  pub is_admin : Option Bool

pub data Gate : Type 0 where
  abort : ℕ → Gate
  next : Context → Gate

-- WHERE token_hash = ?
abbrev pub has_token : String → Node → Bool
has_token hash n = str_eq n.token_hash hash

-- WHERE cluster_token_hash = ?
abbrev pub has_cluster_token : String → Cluster → Bool
has_cluster_token hash c = str_eq c.cluster_token_hash hash

abbrev pub node_context : Context → Node → Context
node_context context n = record context {
  tenant_id = some n.tenant_id;
  cluster_id = some n.cluster_id;
  node_id = some n.id;
  is_admin = some n.is_admin;
}

abbrev pub cluster_context : Context → Cluster → Context
cluster_context context c = record context { tenant_id = some c.tenant_id; cluster_id = some c.id }

module _ (go : Golib) (secret : String) where
  unfoldable pub require_node_token : Faults → String → Db → Context → Gate
  unfolding Token.is_too_short Token.validate
  require_node_token fails provided db context =
      if str_eq provided "" || Token.is_too_short provided
      then abort 401
      else if fails 0
      then abort 500
      else elim (find (has_token (Token.hash go provided secret)) db.nodes) [
        | none ↦ abort 401
        | some n ↦
            if not (Token.validate go provided secret n.token_hash)
            then abort 401
            else next (node_context context n)
      ]

  unfoldable pub require_cluster_token : Faults → String → Db → Context → Gate
  unfolding Token.is_too_short Token.validate
  require_cluster_token fails provided db context =
      if str_eq provided "" || Token.is_too_short provided
      then abort 401
      else if fails 0
      then abort 500
      else elim (find (has_cluster_token (Token.hash go provided secret)) db.clusters) [
        | none ↦ abort 401
        | some c ↦
            if not (Token.validate go provided secret c.cluster_token_hash)
            then abort 401
            else next (cluster_context context c)
      ]

unfoldable pub require_admin_node : Context → Gate
require_admin_node context = elim context.is_admin [
  | none ↦ abort 403
  | some admin ↦ if admin then next context else abort 403
]

-- `none` lets the request through. `verdict` is what `isMaster` gives.
unfoldable pub write_guard : String → Result (Bool × String) → Option ℕ
write_guard method verdict =
    if str_eq method "GET" || str_eq method "HEAD" then none else elim verdict [
      | err e ↦ some 503
      | ok (master, master_url) ↦ if master then none else some 503
    ]
