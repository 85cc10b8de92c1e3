-- ===== src/Tests.antt =====
-- Concrete runs of the definitions, and the theorems at concrete inputs.
mod Toy
mod Entries
mod Packets
mod Handlers
mod Net
mod Shards
mod Processes
mod Proxy
mod Rdma
mod Servers
mod Client
mod Launcher
mod Clusters
mod Programs
