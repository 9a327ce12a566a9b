-- ===== src/Bundle.antt =====
-- Config bundles: pkg/bundle (Validate), server/internal/service/bundle.go (Service) and
-- server/internal/api/handlers/bundle.go (Handler).
pub mod Validate
pub mod Service
pub mod Handler
