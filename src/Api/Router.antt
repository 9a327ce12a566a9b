-- ===== src/Api/Router.antt =====
-- server/internal/api/router.go: each request through its gates to its handler.
use nebula_gc.Prelude.{ℕ, String, Bool, Option, none, some}
use nebula_gc.Errors.{Result}
use nebula_gc.Exec.{Faults}
use nebula_gc.Golib.{Golib}
use nebula_gc.Archive.{Archiver}
use nebula_gc.Store.{Db}
use nebula_gc.Auth.{
  Context, Gate, abort, next, require_node_token, require_cluster_token, require_admin_node,
  write_guard,
}
use nebula_gc.Bundle.Handler
use nebula_gc.Api.{
  Request, post_nodes, get_nodes, patch_mtu, post_node_token, delete_nodes, get_config_version,
  get_config_bundle, post_config_bundle, get_topology, post_lighthouse, delete_lighthouse,
  post_relay, delete_relay, get_routes, put_routes, get_routes_cluster, post_cluster_rotate,
  get_live, get_ready, get_master, Response, failure, done, bundle_reply, method,
}
use nebula_gc.Api.Handlers

-- What a request meets: the time, the UUID of a new node, its token, the faults of the gate and of
-- the service (of a second method of it, too), what `IsMaster` gives and whether the database
-- answers a ping.
pub record World : Type 0 where
  pub now : ℕ
  pub new_id : String
  pub header : String
  pub gate_faults : Faults
  pub faults : Faults
  pub more_faults : Faults
  pub verdict : Result (Bool × String)
  pub ping : Bool

abbrev pub empty_context : Context
empty_context = record { tenant_id = none; cluster_id = none; node_id = none; is_admin = none }

abbrev pub pass : Gate → (Context → Response × Db) → Db → Response × Db
pass (abort code) k db = (failure code, db)
pass (next c) k db = k c

abbrev bundle : Handler.Response × Db → Response × Db
bundle (r, db) = (bundle_reply r, db)

module _ (go : Golib) (secret : String) where
  abbrev pub with_node : World → Db → (Context → Response × Db) → Response × Db
  with_node w db k =
      pass (require_node_token go secret w.gate_faults w.header db empty_context) k db

  abbrev pub with_admin : World → Db → (Context → Response × Db) → Response × Db
  with_admin w db k = with_node w db (λ c. pass (require_admin_node c) k db)

  abbrev pub with_cluster : World → Db → (Context → Response × Db) → Response × Db
  with_cluster w db k =
      pass (require_cluster_token go secret w.gate_faults w.header db empty_context) k db

module _ (go : Golib) (ar : Archiver) (secret : String) (tenant_required : Bool) where
  -- Behind the write guard
  unfoldable pub route : World → Request → Db → Response × Db
  route w (post_nodes cluster_token body) db =
      with_admin go secret w db
        (λ c. Handlers.create_node go secret w.faults w.now w.new_id c cluster_token body db)
  route w (get_nodes page size) db =
      with_admin go secret w db (λ c. Handlers.list_nodes go secret w.faults c page size db)
  route w (patch_mtu node body) db =
      with_admin go secret w db (λ c. Handlers.update_mtu go secret w.faults c node body db)
  route w (post_node_token node) db =
      with_admin go secret w db (λ c. Handlers.rotate_node_token go secret w.faults w.now c node db)
  route w (delete_nodes node) db =
      with_admin go secret w db (λ c. Handlers.delete_node w.faults c node db)
  route w get_config_version db =
      with_node go secret w db
        (λ c. (bundle_reply (Handler.get_version w.faults (Handlers.cluster_id c) db), db))
  route w (get_config_bundle query etag) db = with_node go secret w db (λ c. (
    bundle_reply
        (Handler.download_bundle w.faults w.more_faults (Handlers.cluster_id c) query etag db),
    db,
  ))
  route w (post_config_bundle content_type body) db = with_admin go secret w db (λ c. bundle (
      Handler.upload_bundle ar tenant_required w.faults w.now (Handlers.cluster_id c) content_type
        body db))
  route w get_topology db =
      with_cluster go secret w db (λ c. Handlers.get_topology go w.faults c db)
  route w (post_lighthouse body) db =
      with_cluster go secret w db (λ c. Handlers.assign_lighthouse go w.faults w.now c body db)
  route w (delete_lighthouse node) db =
      with_cluster go secret w db (λ c. Handlers.unassign_lighthouse w.faults w.now c node db)
  route w (post_relay body) db =
      with_cluster go secret w db (λ c. Handlers.assign_relay w.faults w.now c body db)
  route w (delete_relay node) db =
      with_cluster go secret w db (λ c. Handlers.unassign_relay w.faults w.now c node db)
  route w get_routes db = with_node go secret w db (λ c. Handlers.get_routes go w.faults c db)
  route w (put_routes body) db =
      with_node go secret w db (λ c. Handlers.update_routes go w.faults w.now c body db)
  route w get_routes_cluster db =
      with_node go secret w db (λ c. Handlers.get_cluster_routes go w.faults c db)
  route w post_cluster_rotate db =
      with_cluster go secret w db (λ c. Handlers.rotate_cluster_token go w.faults secret c db)
  route w get_live db = (done 200, db)
  route w get_ready db = (Handlers.readiness w.ping, db)
  route w get_master db = (Handlers.master w.verdict, db)

  abbrev guarded : Option ℕ → Response × Db → Db → Response × Db
  guarded none r db = r
  guarded (some code) r db = (failure code, db)

  unfoldable pub serve : World → Request → Db → Response × Db
  unfolding route
  serve w r db = guarded (write_guard (method r) w.verdict) (route w r db) db
