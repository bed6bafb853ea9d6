-- ===== src/Github.antt =====
-- internal/api/github: what the client of the GitHub API makes of responses (github.go, handlers.go,
-- response.go, error.go). The other transports are its children.
pub mod Limits
pub mod Http
pub mod RateLimit
pub mod Cache
pub mod Client
pub mod Stale
mod Tests
