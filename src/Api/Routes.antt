-- ===== src/Api/Routes.antt =====
-- server/internal/api/router.go: the patterns under which `SetupRouter` registers its handlers. A
-- parameter stands for one part of a path, as in gin.
use nebula_gc.Prelude.{String, Bool, true, false, ◌&&◌, List, [], ◌∷◌, str_eq, any}

pub data Part : Type 0 where
  literal : String → Part
  parameter : Part

pub record Route : Type 0 where
  pub method : String
  pub pattern : List Part

abbrev pub matches : List Part → List String → Bool
matches [] [] = true
matches [] (s ∷ ss) = false
matches (p ∷ ps) [] = false
matches (literal l ∷ ps) (s ∷ ss) = str_eq l s && matches ps ss
matches (parameter ∷ ps) (s ∷ ss) = matches ps ss

abbrev route : String → List Part → Route
route method pattern = record { method = method; pattern = pattern }

abbrev v1 : List Part → List Part
v1 rest = literal "api" ∷ literal "v1" ∷ rest

unfoldable pub routes : List Route
routes =
    route "GET" (literal "metrics" ∷ [])
    ∷ route "GET" (literal "health" ∷ literal "live" ∷ [])
    ∷ route "GET" (literal "health" ∷ literal "ready" ∷ [])
    ∷ route "GET" (literal "health" ∷ literal "master" ∷ [])
    ∷ route "POST" (v1 (literal "nodes" ∷ []))
    ∷ route "GET" (v1 (literal "nodes" ∷ []))
    ∷ route "PATCH" (v1 (literal "nodes" ∷ parameter ∷ literal "mtu" ∷ []))
    ∷ route "POST" (v1 (literal "nodes" ∷ parameter ∷ literal "token" ∷ []))
    ∷ route "DELETE" (v1 (literal "nodes" ∷ parameter ∷ []))
    ∷ route "GET" (v1 (literal "config" ∷ literal "version" ∷ []))
    ∷ route "GET" (v1 (literal "config" ∷ literal "bundle" ∷ []))
    ∷ route "POST" (v1 (literal "config" ∷ literal "bundle" ∷ []))
    ∷ route "GET" (v1 (literal "topology" ∷ []))
    ∷ route "POST" (v1 (literal "topology" ∷ literal "lighthouse" ∷ []))
    ∷ route "DELETE" (v1 (literal "topology" ∷ literal "lighthouse" ∷ parameter ∷ []))
    ∷ route "POST" (v1 (literal "topology" ∷ literal "relay" ∷ []))
    ∷ route "DELETE" (v1 (literal "topology" ∷ literal "relay" ∷ parameter ∷ []))
    ∷ route "GET" (v1 (literal "routes" ∷ []))
    ∷ route "PUT" (v1 (literal "routes" ∷ []))
    ∷ route "GET" (v1 (literal "routes" ∷ literal "cluster" ∷ []))
    ∷ route "POST" (v1 (literal "tokens" ∷ literal "cluster" ∷ literal "rotate" ∷ []))
    ∷ []

unfoldable pub has_route : String → List String → Bool
unfolding routes
has_route method path = any (λ r. str_eq r.method method && matches r.pattern path) routes
