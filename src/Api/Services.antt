-- ===== src/Api/Services.antt =====
-- The methods on nodes and tokens, each as a sequence of writes.
use nebula_gc.Prelude.{
  ℕ, String, ◌≡◌, refl, ◌⊎◌, inl, inr, Bool, true, false, List, [], ◌∷◌, ◌++◌, arith, eq_refl, any,
}
use nebula_gc.Errors.{Result-cases}
use nebula_gc.Exec.{Faults}
use nebula_gc.Sql.{update, delete}
use nebula_gc.Golib.{Golib}
use nebula_gc.Token
use nebula_gc.Store.{Cluster, Node, Db}
use nebula_gc.Bundle.Service.{cluster_has_id}
use nebula_gc.Node.{
  NodeCreateRequest, bump, conflicts, mtu_allowed, validate_mtu, is_cluster, is_node, new_node,
  create_node, update_mtu, rotate_node_token, delete_node,
}
use nebula_gc.Topology.{is_member, rotate_cluster_token}
use nebula_gc.Api.Steps.{
  in_cluster, Keeps, Raises, Within, Within-all, Change, nothing, alter_nodes, add_node,
  remove_nodes, alter_clusters, Changes, start, later, unchanged,
}

pub bump-Raises : Raises bump
bump-Raises = record { id = λ c. refl; version = λ c. omega arith }

-- Only the MTU, the token or the columns of a role or of routes change.
hash-Keeps : (hash : String) → Keeps (λ n. record n { token_hash = hash })
hash-Keeps hash = record {
  id = λ n. refl;
  tenant = λ n. refl;
  name = λ n. refl;
  cluster = λ n. refl;
  mtu = λ n e. e;
}

mtu-Keeps : (mtu : ℕ) → mtu_allowed mtu ≡ true → Keeps (λ n. record n { mtu = mtu })
mtu-Keeps mtu allowed = record {
  id = λ n. refl;
  tenant = λ n. refl;
  name = λ n. refl;
  cluster = λ n. refl;
  mtu = λ n e. allowed;
}

-- The two writes that most methods end with: on nodes, and on the version of the cluster.
abbrev with_version : (Cluster → Bool) → Db → Db
with_version p db = record db { clusters = update p bump db.clusters }

module _ (tenant cluster : String) (db db' mid : Db) where
  raised :
      Change cluster db mid
      → (db' ≡ db) ⊎ ((db' ≡ mid) ⊎ (db' ≡ with_version (is_cluster tenant cluster) mid))
      → Changes cluster db db'
  raised c (inl e) = unchanged cluster db db' e
  raised c (inr (inl e)) = later (later start c) (nothing e)
  raised c (inr (inr e)) =
      later (later start c)
        (alter_clusters (is_cluster tenant cluster) bump bump-Raises (λ d h. ground (arith, h)) e)

module _ (tenant cluster node : String) where
  is_node-Within : (ns : List Node) → Within cluster (is_node tenant cluster node) ns
  is_node-Within ns = Within-all cluster (is_node tenant cluster node) ns (λ n h. ground (arith, h))

  pub is_member-Within : (ns : List Node) → Within cluster (is_member cluster node) ns
  is_member-Within ns = Within-all cluster (is_member cluster node) ns (λ n h. ground (arith, h))

  module _ (go : Golib) (secret : String) (f : Faults) (now : ℕ) (db : Db) where
    pub update_mtu-Changes :
        (mtu : ℕ)
        → mtu_allowed mtu ≡ true
        → Changes cluster db (update_mtu go secret f tenant cluster node mtu db).1
    unfolding update_mtu
    update_mtu-Changes mtu allowed =
        let mid = record db {
          nodes = update (is_node tenant cluster node) (λ n. record n { mtu = mtu }) db.nodes;
        } in
        raised tenant cluster db (update_mtu go secret f tenant cluster node mtu db).1 mid
          (alter_nodes (is_node tenant cluster node) (λ n. record n { mtu = mtu })
            (mtu-Keeps mtu allowed) (is_node-Within db.nodes) refl)
          (ground arith)

    pub rotate_node_token-Changes :
        Changes cluster db (rotate_node_token go secret f now tenant cluster node db).1
    unfolding rotate_node_token
    rotate_node_token-Changes = elim (Result-cases (Token.generate go)) [
      | inr (x, e) ↦
          unchanged cluster db (rotate_node_token go secret f now tenant cluster node db).1
            (ground (arith, e))
      | inl (token, e) ↦
          let set : Node → Node = λ n. record n { token_hash = Token.hash go token secret } in
          let mid = record db { nodes = update (is_node tenant cluster node) set db.nodes } in
          raised tenant cluster db (rotate_node_token go secret f now tenant cluster node db).1 mid
            (alter_nodes (is_node tenant cluster node) set (hash-Keeps (Token.hash go token secret))
              (is_node-Within db.nodes) refl)
            (ground (arith, e))
    ]

  pub delete_node-Changes :
      (f : Faults) (db : Db) → Changes cluster db (delete_node f tenant cluster node db).1
  unfolding delete_node
  delete_node-Changes f db =
      raised tenant cluster db (delete_node f tenant cluster node db).1
        (record db { nodes = delete (is_node tenant cluster node) db.nodes })
        (remove_nodes (is_node tenant cluster node) (is_node-Within db.nodes) refl) (ground arith)

created :
    (db db' : Db) (tenant cluster : String) (n : Node) (fresh : Bool)
    → in_cluster cluster n ≡ true
    → (db' ≡ db)
      ⊎ ((any (conflicts n) db.nodes ≡ false)
          × (mtu_allowed n.mtu ≡ true)
          × ((db' ≡ record db { nodes = db.nodes ++ n ∷ [] })
              ⊎ (db'
                  ≡ with_version
                      (is_cluster tenant cluster)
                      (record db { nodes = db.nodes ++ n ∷ [] }))))
    → Changes cluster db db'
created db db' tenant cluster n fresh i (inl e) = unchanged cluster db db' e
created db db' tenant cluster n fresh i (inr (free, allowed, e)) =
    raised tenant cluster db db' (record db { nodes = db.nodes ++ n ∷ [] })
      (add_node n free i allowed refl) (inr e)

pub create_node-Changes :
    (tenant cluster : String) (go : Golib) (secret : String) (f : Faults) (now : ℕ)
    (node_id cluster_token : String) (req : NodeCreateRequest) (db : Db)
    → Changes cluster db (create_node go secret f now node_id tenant cluster cluster_token req db).1
unfolding create_node validate_mtu
create_node-Changes tenant cluster go secret f now node_id cluster_token req db =
    elim (Result-cases (Token.generate go)) [
      | inr (x, e) ↦
          unchanged cluster db
            (create_node go secret f now node_id tenant cluster cluster_token req db).1
            (ground (arith, e))
      | inl (token, e) ↦
          created db (create_node go secret f now node_id tenant cluster cluster_token req db).1
            tenant cluster (new_node go secret now node_id tenant cluster req token) true
            (eq_refl cluster) (ground (arith, e))
    ]

pub rotate_cluster_token-Changes :
    (cluster : String) (go : Golib) (secret : String) (f : Faults) (db : Db)
    → Changes cluster db (rotate_cluster_token go f secret cluster db).1
unfolding rotate_cluster_token
rotate_cluster_token-Changes cluster go secret f db = elim (Result-cases (Token.generate go)) [
  | inr (x, e) ↦
      unchanged cluster db (rotate_cluster_token go f secret cluster db).1 (ground (arith, e))
  | inl (token, e) ↦
      let set : Cluster → Cluster =
        λ c. record c { cluster_token_hash = Token.hash go token secret } in
      either (rotate_cluster_token go f secret cluster db).1 set
        (record { id = λ c. refl; version = λ c. omega arith }) (ground (arith, e))
]
  where
    either :
        (db' : Db) (set : Cluster → Cluster)
        → Raises set
        → (db' ≡ db)
          ⊎ (db' ≡ record db { clusters = update (cluster_has_id cluster) set db.clusters })
        → Changes cluster db db'
    either db' set r (inl e) = unchanged cluster db db' e
    either db' set r (inr e) =
        later start (alter_clusters (cluster_has_id cluster) set r (λ c h. h) e)
