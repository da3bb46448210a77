-- ===== src/Cache.antt =====
-- internal/cache: the rule caches and the answer cache, over the third-party fastcache.
pub mod FastCache
pub mod DomainCache
pub mod Wire
pub mod DnsCache
