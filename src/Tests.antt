-- ===== src/Tests.antt =====
-- The theorems at concrete states: a server with one file, a client and a master at the wire.
pub mod Fixtures
pub mod Servers
pub mod Clients
pub mod Masters
pub mod Boards
pub mod Chain
pub mod Disks
pub mod Bytes
pub mod Sectors
pub mod Machines
mod DiskReads
mod Hubs
mod Loops
mod Boots
