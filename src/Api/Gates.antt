-- ===== src/Api/Gates.antt =====
-- The acting cluster of a request, and what the gates before a handler mean for its effect.
use nebula_gc.Prelude.{
  ℕ, ◌+◌, String, ◌≡◌, refl, sym, subst, inl, inr, Bool, true, false, not, ◌&&◌, Option, none, some,
  List, [], ◌∷◌, arith, str_eq, eq_iff, eq_refl, ltb, if◌then◌else◌, Bool-cases, Option-cases,
  length, take, All,
}
use mathlib.Core.Option
use nebula_gc.Errors.{Result, ok, err}
use nebula_gc.Exec.{Faults}
use nebula_gc.Sql.{find}
use nebula_gc.Sql.Laws.{All-find}
use nebula_gc.Golib.{Golib}
use nebula_gc.Token
use nebula_gc.Store.{Cluster, Node, Db}
use nebula_gc.Node.{conflicts}
use nebula_gc.Topology.{has_id}
use nebula_gc.Archive.{Archiver}
use nebula_gc.Bundle.Service.{upload}
use nebula_gc.Bundle.Validate.{max_bundle_size}
use nebula_gc.Bundle.Handler
use nebula_gc.Auth.{
  Context, Gate, abort, next, has_token, has_cluster_token, node_context, cluster_context,
  require_node_token, require_cluster_token, require_admin_node,
}
use nebula_gc.Api.{Response}
use nebula_gc.Api.Handlers.{respond, authenticated}
use nebula_gc.Api.Router.{World, empty_context, pass, with_node, with_admin, with_cluster}
use nebula_gc.Api.Steps.{Within, Changes, unchanged}
use nebula_gc.Api.WellFormed.{Apart}

-- The writes that a request may do: none without an acting cluster.
abbrev pub Effect : Option String → Db → Db → Type 0
Effect none db db' = db' ≡ db
Effect (some cluster) db db' = Changes cluster db db'

pub Effect-same : (owner : Option String) (db db' : Db) → db' ≡ db → Effect owner db db'
Effect-same none db db' e = e
Effect-same (some cluster) db db' e = unchanged cluster db db' e

-- The cluster of the node with the token, and the cluster with the token, by their hashes.
abbrev pub node_owner : String → Db → Option String
node_owner hash db = Option.map (λ n. n.cluster_id) (find (has_token hash) db.nodes)

abbrev pub cluster_owner : String → Db → Option String
cluster_owner hash db = Option.map (λ c. c.id) (find (has_cluster_token hash) db.clusters)

module _ {ℓ} (P : Db → Type ℓ) (db : Db) where
  pub pass_lem :
      (g : Gate) (k : Context → Response × Db)
      → P db
      → ((c : Context) → g ≡ next c → P (k c).1)
      → P (pass g k db).1
  pass_lem (abort code) k same h = same
  pass_lem (next c) k same h = h c refl

  pub authenticated_lem :
      (id : String) (r : Response × Db) → P db → P r.1 → P (authenticated id r db).1
  authenticated_lem id r same h = elim (Bool-cases (str_eq id "")) [
    | inl e ↦ rw e same
    | inr e ↦ rw e h
  ]

  pub either_lem : (b : Bool) (r s : Response × Db) → P r.1 → P s.1 → P (if b then r else s).1
  either_lem true r s h i = h
  either_lem false r s h i = i

  choose : (b : Bool) (r s : Handler.Response × Db) → P r.1 → P s.1 → P (if b then r else s).1
  choose true r s i j = i
  choose false r s i j = j

  uploaded_lem : (r : Result ℕ × Db) → P r.1 → P (Handler.uploaded r).1
  uploaded_lem (ok v, db') i = i
  uploaded_lem (err e, db') i = i

  pub upload_bundle-keeps :
      (ar : Archiver) (tenant_required : Bool) (f : Faults) (now : ℕ)
      (cluster content_type : String) (body : Option (List ℕ))
      → P db
      → ((content : List ℕ) → P (upload ar tenant_required f now cluster content db).1)
      → P (Handler.upload_bundle ar tenant_required f now cluster content_type body db).1
  unfolding Handler.upload_bundle
  upload_bundle-keeps ar tenant_required f now cluster content_type none same h =
      choose (str_eq cluster "") _ _ same (
        choose
          (not (str_eq content_type "application/gzip")
            && not (str_eq content_type "application/x-gzip"))
          (Handler.status 400, db) (Handler.status 400, db) same same)
  upload_bundle-keeps ar tenant_required f now cluster content_type (some bytes) same h =
      choose (str_eq cluster "") _ _ same (
        choose
          (not (str_eq content_type "application/gzip")
            && not (str_eq content_type "application/x-gzip"))
          _ _ same
          (choose (ltb max_bundle_size (length (take (max_bundle_size + 1) bytes))) _ _ same
            (uploaded_lem _ (h (take (max_bundle_size + 1) bytes)))))

  pub respond_lem {κ} :
      {A : Type κ} (f : A → Response) (r : Result A × Db) → P r.1 → P (respond f r).1
  respond_lem f (ok a, db') h = h
  respond_lem f (err e, db') h = h

module _ (go : Golib) (secret : String) (w : World) (db : Db) where
  pub node_gate :
      (c : Context)
      → require_node_token go secret w.gate_faults w.header db empty_context ≡ next c
      → (n : Node) × (find (has_token (Token.hash go w.header secret)) db.nodes ≡ some n)
        × (c ≡ node_context empty_context n)
  unfolding require_node_token
  node_gate c e = elim (Option-cases (find (has_token (Token.hash go w.header secret)) db.nodes)) [
    | inl f ↦ absurd (ground (arith, f))
    | inr (n, f) ↦ (n, f, ground (arith, f))
  ]

  pub cluster_gate :
      (c : Context)
      → require_cluster_token go secret w.gate_faults w.header db empty_context ≡ next c
      → (d : Cluster) × (find (has_cluster_token (Token.hash go w.header secret)) db.clusters
          ≡ some d)
        × (c ≡ cluster_context empty_context d)
  unfolding require_cluster_token
  cluster_gate c e =
      elim (Option-cases (find (has_cluster_token (Token.hash go w.header secret)) db.clusters)) [
        | inl f ↦ absurd (ground (arith, f))
        | inr (d, f) ↦ (d, f, ground (arith, f))
      ]

  pub admin_gate :
      (c d : Context) → require_admin_node c ≡ next d → (c ≡ d) × (c.is_admin ≡ some true)
  unfolding require_admin_node
  admin_gate c d e = elim (Option-cases c.is_admin) [
    | inl f ↦ absurd (ground (arith, f))
    | inr (b, f) ↦ (ground (arith, f), ground (arith, f))
  ]

  module _ {ℓ} (P : Db → Type ℓ) (k : Context → Response × Db) (same : P db) where
    -- A property of the tables after a handler behind RequireNodeToken
    pub with_node_lem :
        ((n : Node)
          → find (has_token (Token.hash go w.header secret)) db.nodes ≡ some n
          → P (k (node_context empty_context n)).1)
        → P (with_node go secret w db k).1
    with_node_lem h =
        pass_lem P db (require_node_token go secret w.gate_faults w.header db empty_context) k same
          (λ c e. let (n, f, s) = node_gate c e in subst (λ d. P (k d).1) (sym s) (h n f))

    pub with_cluster_lem :
        ((d : Cluster)
          → find (has_cluster_token (Token.hash go w.header secret)) db.clusters ≡ some d
          → P (k (cluster_context empty_context d)).1)
        → P (with_cluster go secret w db k).1
    with_cluster_lem h =
        pass_lem P db (require_cluster_token go secret w.gate_faults w.header db empty_context) k
          same (λ c e. let (d, f, s) = cluster_gate c e in subst (λ d. P (k d).1) (sym s) (h d f))

  -- Behind RequireAdminNode, too: the node is an admin.
  pub with_admin_lem {ℓ} :
      (P : Db → Type ℓ) (k : Context → Response × Db)
      → P db
      → ((n : Node)
          → find (has_token (Token.hash go w.header secret)) db.nodes ≡ some n
          → n.is_admin ≡ true
          → P (k (node_context empty_context n)).1)
      → P (with_admin go secret w db k).1
  with_admin_lem P k same h =
      with_node_lem P (λ c. pass (require_admin_node c) k db) same
        (λ n f. pass_lem P db (require_admin_node (node_context empty_context n)) k same (λ c e.
          let (s, a) = admin_gate (node_context empty_context n) c e in
          subst (λ d. P (k d).1) s (h n f (cc a))))

  abbrev hash : String
  hash = Token.hash go w.header secret

  module _ (k : Context → Response × Db) where
    pub with_node-Effect :
        ((n : Node)
          → find (has_token hash) db.nodes ≡ some n
          → Changes n.cluster_id db (k (node_context empty_context n)).1)
        → Effect (node_owner hash db) db (with_node go secret w db k).1
    with_node-Effect h =
        with_node_lem (Effect (node_owner hash db) db) k
          (Effect-same (node_owner hash db) db db refl) (λ n f. rw f (h n f))

    pub with_admin-Effect :
        ((n : Node)
          → find (has_token hash) db.nodes ≡ some n
          → Changes n.cluster_id db (k (node_context empty_context n)).1)
        → Effect (node_owner hash db) db (with_admin go secret w db k).1
    with_admin-Effect h =
        with_admin_lem (Effect (node_owner hash db) db) k
          (Effect-same (node_owner hash db) db db refl) (λ n f _. rw f (h n f))

    pub with_cluster-Effect :
        ((d : Cluster)
          → find (has_cluster_token hash) db.clusters ≡ some d
          → Changes d.id db (k (cluster_context empty_context d)).1)
        → Effect (cluster_owner hash db) db (with_cluster go secret w db k).1
    with_cluster-Effect h =
        with_cluster_lem (Effect (cluster_owner hash db) db) k
          (Effect-same (cluster_owner hash db) db db refl) (λ d f. rw f (h d f))

-- Ids that are not shared: all rows with the id of a row are in its cluster.
pub Within-own :
    (p : Node → Bool) (n : Node) (ns : List Node)
    → Apart ns
    → find p ns ≡ some n
    → Within n.cluster_id (has_id n.id) ns
unfolding find
Within-own p n [] a e = tt
Within-own p n (m ∷ ns) a e = elim (Bool-cases (p m)) [
  | inl t ↦
      let same : m ≡ n = ground arith in
      (
        (λ _. ground (arith, same, eq_refl n.cluster_id)),
        subst (λ k. Within n.cluster_id (has_id k.id) ns) same (others m ns a.0),
      )
  | inr t ↦
      let rest : find p ns ≡ some n = ground arith in
      let apart : conflicts m n ≡ false = All-find (λ k. conflicts m k ≡ false) p ns n a.0 rest in
      (
        (λ h. absurd (ground (arith, h, apart, eq_iff m.id n.id, eq_refl n.id))),
        Within-own p n ns a.1 rest,
      )
]
  where
    others :
        (m : Node) (ks : List Node)
        → All (λ k. conflicts m k ≡ false) ks
        → Within n.cluster_id (has_id m.id) ks
    others m [] h = tt
    others m (k ∷ ks) h =
        ((λ t. absurd (ground (arith, t, h.0, eq_iff k.id m.id, eq_refl m.id))), others m ks h.1)
