-- ===== src/Client.antt =====
-- The ESP8266 client (WiFi-VirtDisk-Client): SPI commands from the Z80 board in, packets to the
-- server out.
pub mod State
pub mod Control
pub mod Read
pub mod Write
pub mod Process
pub mod Fill
pub mod Answer
pub mod Reject
pub mod Invariant
pub mod Loop
pub mod Settings
