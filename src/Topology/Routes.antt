-- ===== src/Topology/Routes.antt =====
-- UpdateRoutes, read back by GetNodeRoutes.
use nebula_gc.Prelude.{
  ℕ, String, ◌≡◌, refl, inl, inr, false, some, List, [], ◌∷◌, arith, str_eq, eq_iff, if◌then◌else◌,
  Option-cases,
}
use nebula_gc.Errors.{ok}
use nebula_gc.Exec.{Faults}
use nebula_gc.Sql.{find}
use nebula_gc.Sql.Laws.{find-update, find-holds}
use nebula_gc.Golib.{Golib, IsJson}
use nebula_gc.Store.{Db}
use nebula_gc.Topology.{
  has_id, routes_json, route_columns, column_routes, update_routes, get_node_routes,
}

column-round :
    (go : Golib) (routes : List String)
    → IsJson go routes
    → column_routes go (some (routes_json go routes)) ≡ ok routes
column-round go [] j = refl
column-round go (r ∷ rs) j =
    ground (arith, j.unmarshal-marshal, j.marshal-ne, eq_iff (go.marshal (r ∷ rs)) "")

-- The routes that an UpdateRoutes without error has set, the empty list included, are those that
-- GetNodeRoutes of the node returns; those of every other node are as before.
pub get_node_routes-update_routes :
    (go : Golib) (f : Faults) (now : ℕ) (node j : String) (routes : List String) (db : Db)
    → IsJson go routes
    → (update_routes go f now node routes db).0 ≡ ok tt
    → (get_node_routes go (λ k. false) j (update_routes go f now node routes db).1).0
      ≡ (if str_eq j node then ok routes else (get_node_routes go (λ k. false) j db).0)
unfolding update_routes get_node_routes
get_node_routes-update_routes go f now node j routes db json e =
    let moved =
      find-update (has_id j) (has_id node) (route_columns go now routes) db.nodes (λ n. refl) in
    elim (Option-cases (find (has_id j) db.nodes)) [
      | inl absent ↦ ground (arith, moved, eq_iff j node, column-round go routes json)
      | inr (n, here) ↦ ground (
        arith,
        moved,
        find-holds (has_id j) db.nodes n here,
        eq_iff n.id j,
        eq_iff n.id node,
        eq_iff j node,
        column-round go routes json,
      )
    ]
