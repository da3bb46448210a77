-- ===== src/Tests.antt =====
-- Every property at a concrete input, and runs of the code.
mod RouteCases
mod Values
mod ConfigCases
mod CacheCases
mod DnsCases
mod HandlerCases
mod BlocklistCases
mod ApiCases
mod Runs
mod ProcessCases
