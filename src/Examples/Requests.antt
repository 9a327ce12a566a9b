-- ===== src/Examples/Requests.antt =====
-- Requests of an admin node on the two nodes of the cluster.
use nebula_gc.Prelude.{◌≤◌, ◌≡◌, refl, inr, true, false, none, some, List, [], ◌∷◌, arith}
use nebula_gc.Errors.{ok}
use nebula_gc.Sql.{find}
use nebula_gc.Archive.{Archiver}
use nebula_gc.Token
use nebula_gc.Store.{Cluster, Db}
use nebula_gc.Api.{Request, delete_nodes, get_nodes, patch_mtu, post_node_token}
use nebula_gc.Api.Router.{World, serve}
use nebula_gc.Auth.{has_token}
use nebula_gc.Api.Gates.{Effect}
use nebula_gc.Api.WellFormed.{IsWellFormed, Apart}
use nebula_gc.Bundle.Service.{cluster_has_id}
use nebula_gc.Api.Refinement.{acting, serve-Effect}
use nebula_gc.Api.Runs.{run, run-IsWellFormed, run-config_version}
use nebula_gc.Api.Isolation.{Untouched, Elsewhere, serve-Untouched}
use nebula_gc.Api.Refusals.{Refused, serve-Refused}
use nebula_gc.Examples.{no_faults, letters, go, cluster, node, db}

abbrev archiver : Archiver
archiver = record { gunzip = λ b. none; parse_yaml = λ b. true }

abbrev tables : Db
tables = record db {
  nodes = node "a" (letters 44) ∷ record (node "b" (letters 45)) { is_admin = false } ∷ [];
}

abbrev world : World
world = record {
  now = 9;
  new_id = "d";
  header = letters 44;
  gate_faults = no_faults;
  faults = no_faults;
  more_faults = no_faults;
  verdict = ok (true, "");
  ping = true;
}

apart : Apart tables.nodes
apart = ((refl, tt), (tt, tt))

serve-Effect_example :
    Effect
      (acting (Token.hash go world.header "secret") (delete_nodes "b") tables)
      tables
      (serve go archiver "secret" false world (delete_nodes "b") tables).1
serve-Effect_example = serve-Effect go archiver "secret" false world tables (delete_nodes "b") apart

tables-IsWellFormed : IsWellFormed tables
tables-IsWellFormed = record {
  apart = apart;
  mtus = (refl, (refl, tt));
  ids = (tt, tt);
  numbered = (tt, tt);
  versions = (((λ e. omega arith), tt), tt);
}

abbrev requests : List (World × Request)
requests =
    (world, patch_mtu "b" (some 1400))
    ∷ (world, post_node_token "b")
    ∷ (world, delete_nodes "b")
    ∷ []

run-IsWellFormed_example : IsWellFormed (run go archiver "secret" false requests tables)
run-IsWellFormed_example =
    run-IsWellFormed go archiver "secret" false requests tables tables-IsWellFormed

cluster_is_there : find (cluster_has_id "c") tables.clusters ≡ some cluster
unfolding find
cluster_is_there = refl

run-config_version_example :
    (d : Cluster) × (find
        (cluster_has_id "c")
        (run go archiver "secret" false requests tables).clusters
      ≡ some d)
    × (cluster.config_version ≤ d.config_version)
run-config_version_example =
    run-config_version go archiver "secret" false requests tables "c" cluster tables-IsWellFormed
      cluster_is_there

elsewhere : Elsewhere "d" (acting (Token.hash go world.header "secret") (delete_nodes "b") tables)
unfolding Token.hash find
elsewhere = refl

serve-Untouched_example :
    Untouched "d" tables (serve go archiver "secret" false world (delete_nodes "b") tables).1
serve-Untouched_example =
    serve-Untouched go archiver "secret" false world (delete_nodes "b") tables "d" apart elsewhere

abbrev by_b : World
by_b = record world { header = letters 45 }

b_is_found :
    find (has_token (Token.hash go by_b.header "secret")) tables.nodes
    ≡ some (record (node "b" (letters 45)) { is_admin = false })
unfolding find Token.hash
b_is_found = refl

serve-Refused_example :
    Refused tables (serve go archiver "secret" false by_b (get_nodes 1 10) tables)
serve-Refused_example =
    serve-Refused go archiver "secret" false by_b tables (get_nodes 1 10)
      (inr (refl, (record (node "b" (letters 45)) { is_admin = false }, b_is_found, refl)))
