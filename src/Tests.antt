-- ===== src/Tests.antt =====
-- Concrete inputs on which the definitions compute, and the theorems at them.
pub mod Values
pub mod Gateways
pub mod Waiting
pub mod Compare
pub mod Servers
pub mod Uploads
pub mod Peers
pub mod Topologies
pub mod Routing
pub mod Marked
pub mod Requests
pub mod Edges
