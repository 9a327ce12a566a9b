-- ===== src/Api/Runs.antt =====
-- Sequences of requests, each with its own time, faults and tokens.
use nebula_gc.Prelude.{◌≤◌, String, ◌≡◌, sym, subst, Bool, Option, none, some, List, [], ◌∷◌}
use nebula_gc.Golib.{Golib}
use nebula_gc.Archive.{Archiver}
use nebula_gc.Token
use nebula_gc.Sql.{find}
use nebula_gc.Store.{Cluster, Db}
use nebula_gc.Bundle.Service.{cluster_has_id}
use nebula_gc.Api.{Request}
use nebula_gc.Api.Router.{World, serve}
use nebula_gc.Api.Refinement.{acting, serve-Effect}
use nebula_gc.Api.Gates.{Effect}
use nebula_gc.Api.WellFormed.{IsWellFormed, Changes-IsWellFormed}
use nebula_gc.Api.Versions.{Reaches, Reaches-refl, Reaches-trans, Changes-Reaches}

module _ (go : Golib) (ar : Archiver) (secret : String) (tenant_required : Bool) where
  -- The tables after the requests, first to last
  abbrev pub run : List (World × Request) → Db → Db
  run [] db = db
  run ((w, r) ∷ rs) db = run rs (serve go ar secret tenant_required w r db).1

  Effect-IsWellFormed :
      (owner : Option String) (db db' : Db)
      → Effect owner db db'
      → IsWellFormed db
      → IsWellFormed db'
  Effect-IsWellFormed none db db' e i = subst IsWellFormed (sym e) i
  Effect-IsWellFormed (some cluster) db db' e i = Changes-IsWellFormed cluster e i

  Effect-Reaches :
      (owner : Option String) (id : String) (db db' : Db) → Effect owner db db' → Reaches id db db'
  Effect-Reaches none id db db' e = subst (Reaches id db) (sym e) (Reaches-refl id db)
  Effect-Reaches (some cluster) id db db' e = Changes-Reaches id cluster db db' e

  serve-IsWellFormed :
      (w : World) (r : Request) (db : Db)
      → IsWellFormed db
      → IsWellFormed (serve go ar secret tenant_required w r db).1
  serve-IsWellFormed w r db i =
      Effect-IsWellFormed (acting (Token.hash go w.header secret) r db) db _
        (serve-Effect go ar secret tenant_required w db r i.apart) i

  -- From well-formed tables, where no two nodes share an id or a name in one cluster, every MTU is
  -- allowed, the ids of clusters are unique, no two bundles of a cluster share a version and none
  -- is newer than its cluster, every sequence of requests, whatever fails, leads to such tables.
  pub run-IsWellFormed :
      (rs : List (World × Request)) (db : Db) → IsWellFormed db → IsWellFormed (run rs db)
  run-IsWellFormed [] db i = i
  run-IsWellFormed ((w, r) ∷ rs) db i = run-IsWellFormed rs _ (serve-IsWellFormed w r db i)

  run-Reaches :
      (rs : List (World × Request)) (db : Db) (id : String)
      → IsWellFormed db
      → Reaches id db (run rs db)
  run-Reaches [] db id i = Reaches-refl id db
  run-Reaches ((w, r) ∷ rs) db id i =
      let db' = (serve go ar secret tenant_required w r db).1 in
      Reaches-trans id db db' (run rs db')
        (Effect-Reaches (acting (Token.hash go w.header secret) r db) id db db'
          (serve-Effect go ar secret tenant_required w db r i.apart))
        (run-Reaches rs db' id (serve-IsWellFormed w r db i))

  -- From well-formed tables, every sequence of requests, whatever fails, keeps a cluster that there
  -- is, and leaves it at a version that is not lower.
  pub run-config_version :
      (rs : List (World × Request)) (db : Db) (id : String) (c : Cluster)
      → IsWellFormed db
      → find (cluster_has_id id) db.clusters ≡ some c
      → (d : Cluster) × (find (cluster_has_id id) (run rs db).clusters ≡ some d)
        × (c.config_version ≤ d.config_version)
  run-config_version rs db id c i e = run-Reaches rs db id i c e
