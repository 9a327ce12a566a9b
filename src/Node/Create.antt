-- ===== src/Node/Create.antt =====
-- CreateNode: its effects, its errors, and a request that is sent again.
use nebula_gc.Prelude.{
  ℕ, String, ◌≡◌, ◌⊎◌, true, false, ◌||◌, List, [], ◌∷◌, ◌++◌, arith, eq_refl, ◌==◌, any,
}
use nebula_gc.Errors.{Result, ok, err, failed, duplicate_name}
use nebula_gc.Exec.{Faults}
use nebula_gc.Sql.{update}
use nebula_gc.Golib.{Golib}
use nebula_gc.Token
use nebula_gc.Store.{Node, Db}
use nebula_gc.Node.{
  NodeCreateRequest, NodeCredentials, is_cluster, bump, new_node, conflicts, create_node,
}

module _ (go : Golib) (secret : String) (f : Faults) (now : ℕ)
    (node_id tenant cluster cluster_token : String) (req : NodeCreateRequest) (db : Db) where
  -- What a CreateNode without error has done.
  abbrev pub Created : Result NodeCredentials × Db → Type 0
  Created (ok creds, db') =
      (creds.node_id ≡ node_id)
      × (Token.is_too_short creds.node_token ≡ false)
      × (any (conflicts (new_node go secret now node_id tenant cluster req creds.node_token))
            db.nodes
          ≡ false)
      × (db'.nodes
          ≡ db.nodes ++ new_node go secret now node_id tenant cluster req creds.node_token ∷ [])
      × (db'.clusters ≡ update (is_cluster tenant cluster) bump db.clusters)
      × (db'.bundles ≡ db.bundles)
  Created (err e, db') = (db' ≡ db) ⊎ ((f 2 || f 3) ≡ true)

  -- A CreateNode without error returns the token whose hash is in the one row that it has added to
  -- the nodes; no row had the row's UUID, or its name in the cluster; the cluster's version is one
  -- more and the bundles are as they were. A CreateNode that returns an error has changed nothing,
  -- unless one of the two calls that add to the version fails.
  pub create_node-Created :
      Created (create_node go secret f now node_id tenant cluster cluster_token req db)
  unfolding create_node Token.generate Token.is_too_short
  create_node-Created = ground arith

name_taken :
    (go : Golib) (secret : String) (now later : ℕ) (node_id again tenant cluster : String)
    (req : NodeCreateRequest) (token : String) (ns : List Node)
    → any
        (conflicts (new_node go secret later again tenant cluster req token))
        (ns ++ new_node go secret now node_id tenant cluster req token ∷ [])
      ≡ true
name_taken go secret now later node_id again tenant cluster req token [] =
    ground (arith, eq_refl tenant, eq_refl cluster, eq_refl req.name)
name_taken go secret now later node_id again tenant cluster req token (n ∷ ns) =
    ground (arith, name_taken go secret now later node_id again tenant cluster req token ns)

-- If a CreateNode that returns no error without faults meets one in the UPDATE of the version, it
-- returns an error, and the same request sent again, under any UUID, is refused as a duplicate name.
pub create_node-retry :
    (go : Golib) (secret : String) (now later : ℕ)
    (node_id again tenant cluster cluster_token : String) (req : NodeCreateRequest) (db : Db)
    (creds : NodeCredentials)
    → (create_node go secret (λ k. false) now node_id tenant cluster cluster_token req db).0
      ≡ ok creds
    → ((create_node go secret (λ k. k == 2) now node_id tenant cluster cluster_token req db).0
        ≡ err (failed "failed to bump config version"))
      × ((create_node go secret
            (λ k. false)
            later
            again
            tenant
            cluster
            cluster_token
            req
            (create_node go secret
              (λ k. k == 2)
              now
              node_id
              tenant
              cluster
              cluster_token
              req
              db).1).0
          ≡ err duplicate_name)
unfolding create_node Token.generate
create_node-retry go secret now later node_id again tenant cluster cluster_token req db creds e =
    ground (
      arith,
      name_taken go secret now later node_id again tenant cluster req creds.node_token db.nodes,
    )
