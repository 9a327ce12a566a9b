-- ===== src/Http.antt =====
-- server/internal/api/handlers/common.go: the status for an error of a service. Bodies are left out.
use nebula_gc.Prelude.{ℕ}
use nebula_gc.Errors.{
  Error, cluster_not_found, node_not_found, invalid_request, invalid_cidr, invalid_mtu,
  duplicate_name,
}

-- The `switch` compares with `==`, so that an error that wraps a sentinel falls to `default`.
unfoldable pub map_error_to_response : Error → ℕ
map_error_to_response cluster_not_found = 404
map_error_to_response node_not_found = 404
map_error_to_response invalid_request = 400
map_error_to_response invalid_cidr = 400
map_error_to_response invalid_mtu = 400
map_error_to_response duplicate_name = 409
map_error_to_response _ = 500
