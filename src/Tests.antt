-- ===== src/Tests.antt =====
-- Runs of the handlers on the sample gateway, and instances of the theorems.
mod RouteTests
mod ProxyTests
mod AuditTests
mod SupportTests
mod HandlerTests
mod TokenTests
mod StoreTests
