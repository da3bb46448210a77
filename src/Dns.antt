-- ===== src/Dns.antt =====
-- internal/dns: the resolver and the request handler.
pub mod Match
pub mod Ttl
pub mod Servers
pub mod Message
pub mod Upstream
pub mod Resolver
pub mod Handler
