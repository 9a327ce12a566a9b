-- ===== src/Node/Isolation.antt =====
-- The methods on the nodes of one cluster and the nodes outside of it.
use nebula_gc.Prelude.{
  ℕ, String, ◌≡◌, refl, ap, inl, inr, true, not, List, [], ◌∷◌, ◌++◌, arith, eq_refl, if◌then◌else◌,
  Bool-cases,
}
use nebula_gc.Errors.{Result-cases}
use nebula_gc.Exec.{Faults}
use nebula_gc.Sql.{select, update, delete}
use nebula_gc.Golib.{Golib}
use nebula_gc.Token
use nebula_gc.Store.{Node, Db}
use nebula_gc.Node.{
  NodeCreateRequest, in_cluster, is_node, new_node, create_node, update_mtu, rotate_node_token,
  delete_node,
}

-- The rows of other tenants and of other clusters
abbrev pub outside : String → String → Db → List Node
outside tenant cluster db = select (λ n. not (in_cluster tenant cluster n)) db.nodes

module _ (tenant cluster : String) where
  select-update :
      (node : String) (f : Node → Node) (ns : List Node)
      → ((n : Node) → in_cluster tenant cluster (f n) ≡ in_cluster tenant cluster n)
      → select (λ n. not (in_cluster tenant cluster n)) (update (is_node tenant cluster node) f ns)
        ≡ select (λ n. not (in_cluster tenant cluster n)) ns
  unfolding select update
  select-update node f [] h = refl
  select-update node f (n ∷ ns) h = elim (Bool-cases (is_node tenant cluster node n)) [
    | inl e ↦
        let inside : in_cluster tenant cluster n ≡ true = ground arith in
        rw (e, h n, inside) (select-update node f ns h)
    | inr e ↦ rw e (
        ap (λ rest. if not (in_cluster tenant cluster n) then n ∷ rest else rest)
          (select-update node f ns h))
  ]

  select-delete :
      (node : String) (ns : List Node)
      → select (λ n. not (in_cluster tenant cluster n)) (delete (is_node tenant cluster node) ns)
        ≡ select (λ n. not (in_cluster tenant cluster n)) ns
  unfolding select delete
  select-delete node [] = refl
  select-delete node (n ∷ ns) = ground (arith, select-delete node ns)

  select-append :
      (ns : List Node) (n : Node)
      → in_cluster tenant cluster n ≡ true
      → select (λ k. not (in_cluster tenant cluster k)) (ns ++ n ∷ [])
        ≡ select (λ k. not (in_cluster tenant cluster k)) ns
  unfolding select
  select-append [] n e = rw e refl
  select-append (k ∷ ns) n e = ground (arith, select-append ns n e)

  -- Whatever fails, CreateNode, UpdateMTU, RotateNodeToken and DeleteNode on a cluster leave every
  -- node of other tenants and other clusters as it was.
  pub outside-same :
      (go : Golib) (secret : String) (f : Faults) (now : ℕ) (node cluster_token : String)
      (req : NodeCreateRequest) (mtu : ℕ) (db : Db)
      → (outside tenant cluster
            (create_node go secret f now node tenant cluster cluster_token req db).1
          ≡ outside tenant cluster db)
        × (outside tenant cluster (update_mtu go secret f tenant cluster node mtu db).1
            ≡ outside tenant cluster db)
        × (outside tenant cluster (rotate_node_token go secret f now tenant cluster node db).1
            ≡ outside tenant cluster db)
        × (outside tenant cluster (delete_node f tenant cluster node db).1
            ≡ outside tenant cluster db)
  outside-same go secret f now node cluster_token req mtu db =
      elim (Result-cases (Token.generate go)) [
        | inl (token, e) ↦ (
          unfold create_node in
              ground (
                arith,
                e,
                select-append db.nodes (new_node go secret now node tenant cluster req token),
                eq_refl tenant,
                eq_refl cluster,
              ),
          unfold update_mtu in
              ground (arith, select-update node (λ n. record n { mtu = mtu }) db.nodes (λ n. refl)),
          unfold rotate_node_token in
              ground (
                arith,
                e,
                select-update node (λ n. record n { token_hash = Token.hash go token secret })
                    db.nodes (λ n. refl),
              ),
          unfold delete_node in ground (arith, select-delete node db.nodes),
        )
        | inr (x, e) ↦ (
          unfold create_node in ground (arith, e),
          unfold update_mtu in
              ground (arith, select-update node (λ n. record n { mtu = mtu }) db.nodes (λ n. refl)),
          unfold rotate_node_token in ground (arith, e),
          unfold delete_node in ground (arith, select-delete node db.nodes),
        )
      ]
