-- ===== src/Server.antt =====
-- The PC server (WiFi-VirtDisk-Server/src): disk images in files and emulated disks behind the
-- packets of the client.
pub mod Stream
pub mod Image
pub mod Device
pub mod State
pub mod Select
pub mod Failures
pub mod Refine
pub mod Replies
pub mod Transfer
pub mod Process
pub mod Sizes
pub mod Main
pub mod Settings
