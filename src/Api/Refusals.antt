-- ===== src/Api/Refusals.antt =====
-- The requests that a gate answers: without a token that a row has, or of a node that is no admin.
use nebula_gc.Prelude.{
  ℕ, String, ◌≡◌, refl, sym, ◌∙◌, ◌⊎◌, inl, inr, Bool, true, false, none, some, arith, Option-cases,
}
use nebula_gc.Sql.{find}
use nebula_gc.Golib.{Golib}
use nebula_gc.Archive.{Archiver}
use nebula_gc.Token
use nebula_gc.Store.{Node, Db}
use nebula_gc.Auth.{
  Context, Gate, abort, next, has_token, require_node_token, require_cluster_token,
  require_admin_node, write_guard,
}
use nebula_gc.Api.{
  Request, post_nodes, get_nodes, patch_mtu, post_node_token, delete_nodes, get_config_version,
  get_config_bundle, post_config_bundle, get_topology, post_lighthouse, delete_lighthouse,
  post_relay, delete_relay, get_routes, put_routes, get_routes_cluster, post_cluster_rotate,
  get_live, get_ready, get_master, Response, failure, method,
}
use nebula_gc.Api.Router.{
  World, empty_context, pass, with_node, with_admin, with_cluster, route, serve,
}
use nebula_gc.Api.Gates.{node_gate, cluster_gate, admin_gate, node_owner, cluster_owner}
use nebula_gc.Api.Refinement.{acting}

-- Answered with an error, and nothing written
abbrev pub Refused : Db → Response × Db → Type 0
Refused db r = (code : ℕ) × (r ≡ (failure code, db))

module _ (db : Db) where
  pass-Refused :
      (g : Gate) (k : Context → Response × Db)
      → ((c : Context) → g ≡ next c → Refused db (k c))
      → Refused db (pass g k db)
  pass-Refused (abort code) k h = (code, refl)
  pass-Refused (next c) k h = h c refl

-- All but /health
abbrev pub has_gate : Request → Bool
has_gate get_live = false
has_gate get_ready = false
has_gate get_master = false
has_gate _ = true

-- The requests for admin nodes
abbrev pub for_admin : Request → Bool
for_admin (post_nodes _ _) = true
for_admin (get_nodes _ _) = true
for_admin (patch_mtu _ _) = true
for_admin (post_node_token _) = true
for_admin (delete_nodes _) = true
for_admin (post_config_bundle _ _) = true
for_admin _ = false

module _ (go : Golib) (secret : String) (w : World) (db : Db) where
  abbrev hash : String
  hash = Token.hash go w.header secret

  unknown_node :
      (k : Context → Response × Db)
      → node_owner hash db ≡ none
      → Refused db (with_node go secret w db k)
  unknown_node k e =
      pass-Refused db (require_node_token go secret w.gate_faults w.header db empty_context) k
        (λ c s.
          let (n, f, _) = node_gate go secret w db c s in
          absurd (let bad : some n.cluster_id ≡ none = rw f at e in cc))

  unknown_cluster :
      (k : Context → Response × Db)
      → cluster_owner hash db ≡ none
      → Refused db (with_cluster go secret w db k)
  unknown_cluster k e =
      pass-Refused db (require_cluster_token go secret w.gate_faults w.header db empty_context) k
        (λ c s.
          let (d, f, _) = cluster_gate go secret w db c s in
          absurd (let bad : some d.id ≡ none = rw f at e in cc))

  no_admin :
      (k : Context → Response × Db) (n : Node)
      → find (has_token hash) db.nodes ≡ some n
      → n.is_admin ≡ false
      → Refused db (with_admin go secret w db k)
  no_admin k n f a =
      pass-Refused db (require_node_token go secret w.gate_faults w.header db empty_context) _
        (λ c s.
          let (m, g, t) = node_gate go secret w db c s in
          pass-Refused db (require_admin_node c) k (λ d r.
            let (_, admin) = admin_gate go secret w db c d r in
            let same : some m ≡ some n = sym g ∙ f in
            let row : m ≡ n = cc same in absurd (ground (arith, t, admin, row, a))))

module _ (go : Golib) (ar : Archiver) (secret : String) (tenant_required : Bool) (w : World)
    (db : Db) where
  guard-Refused :
      (r : Request)
      → Refused db (route go ar secret tenant_required w r db)
      → Refused db (serve go ar secret tenant_required w r db)
  unfolding serve
  guard-Refused r h = elim (Option-cases (write_guard (method r) w.verdict)) [
    | inl e ↦ rw e h
    | inr (code, e) ↦ rw e (code, refl)
  ]

  unknown :
      (r : Request)
      → has_gate r ≡ true
      → acting (Token.hash go w.header secret) r db ≡ none
      → Refused db (route go ar secret tenant_required w r db)
  unfolding route
  unknown (post_nodes cluster_token body) g e = unknown_node go secret w db _ e
  unknown (get_nodes page size) g e = unknown_node go secret w db _ e
  unknown (patch_mtu node body) g e = unknown_node go secret w db _ e
  unknown (post_node_token node) g e = unknown_node go secret w db _ e
  unknown (delete_nodes node) g e = unknown_node go secret w db _ e
  unknown get_config_version g e = unknown_node go secret w db _ e
  unknown (get_config_bundle query etag) g e = unknown_node go secret w db _ e
  unknown (post_config_bundle content_type body) g e = unknown_node go secret w db _ e
  unknown get_topology g e = unknown_cluster go secret w db _ e
  unknown (post_lighthouse body) g e = unknown_cluster go secret w db _ e
  unknown (delete_lighthouse node) g e = unknown_cluster go secret w db _ e
  unknown (post_relay body) g e = unknown_cluster go secret w db _ e
  unknown (delete_relay node) g e = unknown_cluster go secret w db _ e
  unknown get_routes g e = unknown_node go secret w db _ e
  unknown (put_routes body) g e = unknown_node go secret w db _ e
  unknown get_routes_cluster g e = unknown_node go secret w db _ e
  unknown post_cluster_rotate g e = unknown_cluster go secret w db _ e
  unknown get_live g e = absurd (cc)
  unknown get_ready g e = absurd (cc)
  unknown get_master g e = absurd (cc)

  by_other :
      (r : Request) (n : Node)
      → for_admin r ≡ true
      → find (has_token (Token.hash go w.header secret)) db.nodes ≡ some n
      → n.is_admin ≡ false
      → Refused db (route go ar secret tenant_required w r db)
  unfolding route
  by_other (post_nodes cluster_token body) n g f a = no_admin go secret w db _ n f a
  by_other (get_nodes page size) n g f a = no_admin go secret w db _ n f a
  by_other (patch_mtu node body) n g f a = no_admin go secret w db _ n f a
  by_other (post_node_token node) n g f a = no_admin go secret w db _ n f a
  by_other (delete_nodes node) n g f a = no_admin go secret w db _ n f a
  by_other (post_config_bundle content_type body) n g f a = no_admin go secret w db _ n f a
  by_other get_config_version n g f a = absurd (cc)
  by_other (get_config_bundle query etag) n g f a = absurd (cc)
  by_other get_topology n g f a = absurd (cc)
  by_other (post_lighthouse body) n g f a = absurd (cc)
  by_other (delete_lighthouse node) n g f a = absurd (cc)
  by_other (post_relay body) n g f a = absurd (cc)
  by_other (delete_relay node) n g f a = absurd (cc)
  by_other get_routes n g f a = absurd (cc)
  by_other (put_routes body) n g f a = absurd (cc)
  by_other get_routes_cluster n g f a = absurd (cc)
  by_other post_cluster_rotate n g f a = absurd (cc)
  by_other get_live n g f a = absurd (cc)
  by_other get_ready n g f a = absurd (cc)
  by_other get_master n g f a = absurd (cc)

  -- A request is answered with an error, and nothing is written, if it is not for /health and no
  -- node (or no cluster, where the request asks for a cluster token) has the hash of its token, or
  -- if it is one for admin nodes and the first node with that hash is no admin.
  pub serve-Refused :
      (r : Request)
      → ((has_gate r ≡ true) × (acting (Token.hash go w.header secret) r db ≡ none))
        ⊎ ((for_admin r ≡ true)
            × ((n : Node) × (find (has_token (Token.hash go w.header secret)) db.nodes ≡ some n)
                × (n.is_admin ≡ false)))
      → Refused db (serve go ar secret tenant_required w r db)
  serve-Refused r (inl (g, e)) = guard-Refused r (unknown r g e)
  serve-Refused r (inr (g, (n, f, a))) = guard-Refused r (by_other r n g f a)
