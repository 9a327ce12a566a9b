-- ===== src/Api/Writers.antt =====
-- The requests that change the tables, and the instances that serve them.
use nebula_gc.Prelude.{
  ℕ, String, ◌≡◌, refl, subst, ◌⊎◌, inl, inr, Bool, true, false, none, [], str_eq, Bool-cases,
  Option-cases,
}
use nebula_gc.Exec.{Faults}
use nebula_gc.Sql.{select}
use nebula_gc.Golib.{Golib}
use nebula_gc.Archive.{Archiver}
use nebula_gc.Store.{Db}
use nebula_gc.Ha.Manager.{Manager, is_master}
use nebula_gc.Registry.{Registry, is_healthy}
use nebula_gc.Registry.Service.{replica_service}
use nebula_gc.Auth.{node_context, cluster_context, write_guard}
use nebula_gc.Auth.Writes.{is_self-is_master}
use nebula_gc.Registry.Master.{get_master_unique}
use nebula_gc.Api.{
  Request, post_nodes, get_nodes, patch_mtu, post_node_token, delete_nodes, get_config_version,
  get_config_bundle, post_config_bundle, get_topology, post_lighthouse, delete_lighthouse,
  post_relay, delete_relay, get_routes, put_routes, get_routes_cluster, post_cluster_rotate,
  get_live, get_ready, get_master, method,
}
use nebula_gc.Api.Router.{World, empty_context, route, serve}
use nebula_gc.Api.Reads.{
  list_nodes-same, get_topology-same, get_routes-same, get_cluster_routes-same,
}
use nebula_gc.Api.Gates.{with_node_lem, with_cluster_lem, with_admin_lem}

module _ (go : Golib) (ar : Archiver) (secret : String) (tenant_required : Bool) (w : World)
    (db : Db) where
  abbrev Same : Db → Type 0
  Same d = d ≡ db

  route-get :
      (r : Request)
      → str_eq (method r) "GET" ≡ true
      → Same (route go ar secret tenant_required w r db).1
  unfolding route
  route-get (post_nodes cluster_token body) e = absurd (cc)
  route-get (get_nodes page size) e =
      with_admin_lem go secret w db Same _ refl
        (λ n f a. list_nodes-same go secret w (node_context empty_context n) db page size)
  route-get (patch_mtu node body) e = absurd (cc)
  route-get (post_node_token node) e = absurd (cc)
  route-get (delete_nodes node) e = absurd (cc)
  route-get get_config_version e = with_node_lem go secret w db Same _ refl (λ n f. refl)
  route-get (get_config_bundle query etag) e =
      with_node_lem go secret w db Same _ refl (λ n f. refl)
  route-get (post_config_bundle content_type body) e = absurd (cc)
  route-get get_topology e =
      with_cluster_lem go secret w db Same _ refl
        (λ c f. get_topology-same go secret w (cluster_context empty_context c) db)
  route-get (post_lighthouse body) e = absurd (cc)
  route-get (delete_lighthouse node) e = absurd (cc)
  route-get (post_relay body) e = absurd (cc)
  route-get (delete_relay node) e = absurd (cc)
  route-get get_routes e =
      with_node_lem go secret w db Same _ refl
        (λ n f. get_routes-same go secret w (node_context empty_context n) db)
  route-get (put_routes body) e = absurd (cc)
  route-get get_routes_cluster e =
      with_node_lem go secret w db Same _ refl
        (λ n f. get_cluster_routes-same go secret w (node_context empty_context n) db)
  route-get post_cluster_rotate e = absurd (cc)
  route-get get_live e = refl
  route-get get_ready e = refl
  route-get get_master e = refl

  -- A request that changes the tables is no GET and passes the write guard.
  guarded_write :
      (r : Request)
      → Same (serve go ar secret tenant_required w r db).1
        ⊎ ((str_eq (method r) "GET" ≡ false) × (write_guard (method r) w.verdict ≡ none))
  unfolding serve
  guarded_write r = elim (Bool-cases (str_eq (method r) "GET")) [
    | inl g ↦ elim (Option-cases (write_guard (method r) w.verdict)) [
      | inl e ↦ inl (rw e (route-get r g))
      | inr (code, e) ↦ inl (rw e refl)
    ]
    | inr g ↦ elim (Option-cases (write_guard (method r) w.verdict)) [
      | inl e ↦ inr (g, e)
      | inr (code, e) ↦ inl (rw e refl)
    ]
  ]

no_head : (r : Request) → str_eq (method r) "HEAD" ≡ false
no_head (post_nodes _ _) = refl
no_head (get_nodes _ _) = refl
no_head (patch_mtu _ _) = refl
no_head (post_node_token _) = refl
no_head (delete_nodes _) = refl
no_head get_config_version = refl
no_head (get_config_bundle _ _) = refl
no_head (post_config_bundle _ _) = refl
no_head get_topology = refl
no_head (post_lighthouse _) = refl
no_head (delete_lighthouse _) = refl
no_head (post_relay _) = refl
no_head (delete_relay _) = refl
no_head get_routes = refl
no_head (put_routes _) = refl
no_head get_routes_cluster = refl
no_head post_cluster_rotate = refl
no_head get_live = refl
no_head get_ready = refl
no_head get_master = refl

-- Two instances with one threshold serve a request each, at one time over one registry, with their
-- `IsMaster` as the verdict. Then one of the requests leaves its tables as they were, or the
-- instances have one id, or no row of the registry is healthy.
pub serve_one_writer :
    (go : Golib) (ar : Archiver) (secret : String) (tenant_required : Bool) (f g : Faults) (now : ℕ)
    (m n : Manager) (rs : Registry) (w v : World) (r s : Request) (db other : Db)
    → m.config.heartbeat_threshold ≡ n.config.heartbeat_threshold
    → w.verdict ≡ is_master replica_service f now m rs
    → v.verdict ≡ is_master replica_service g now n rs
    → ((serve go ar secret tenant_required w r db).1 ≡ db)
      ⊎ (((serve go ar secret tenant_required v s other).1 ≡ other)
          ⊎ ((m.config.instance_id ≡ n.config.instance_id)
              ⊎ (select (is_healthy now m.config.heartbeat_threshold) rs ≡ [])))
serve_one_writer go ar secret tenant_required f g now m n rs w v r s db other same mine its =
    elim (guarded_write go ar secret tenant_required w db r) [
      | inl e ↦ inl e
      | inr (get, a) ↦ elim (guarded_write go ar secret tenant_required v other s) [
        | inl e ↦ inr (inl e)
        | inr (get', b) ↦
            let (i, ri, si) =
              is_self-is_master f now m rs (method r) get (no_head r)
                (subst (λ x. write_guard (method r) x ≡ none) mine a) in
            let (j, rj, sj) =
              is_self-is_master g now n rs (method s) get' (no_head s)
                (subst (λ x. write_guard (method s) x ≡ none) its b) in
            inr (
              inr (
                get_master_unique f g now m.config.heartbeat_threshold m.config.instance_id
                  n.config.instance_id rs i j ri (rw same rj) si sj))
      ]
    ]
