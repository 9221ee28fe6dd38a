-- ===== src/Examples.antt =====
-- Concrete worlds and inputs on which the theorems are applied.
mod Doubles
mod Servers
mod Requests
mod Calls
mod Documents
mod Wiring
mod Users
mod Changes
mod Machines
mod Paths
mod Serving
mod Bodies
mod Texts
mod Cache
mod Selection
