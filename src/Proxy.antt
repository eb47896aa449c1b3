-- ===== src/Proxy.antt =====
-- rusty-workers-proxy: routes a request to an app, keeps the instances that are ready for each app,
-- and sends the request to one of them.
pub mod Routing
pub mod State
pub mod Ready
pub mod Instance
pub mod Response
pub mod Dispatch
pub mod Clients
pub mod LruCache
pub mod RouteCache
pub mod Apps
pub mod Request
pub mod Tests
