-- ===== src/Ios.antt =====
-- The firmware of the Z80 board (S220718-R290823_IOS-Z80-MBC2): the SPI commands and their
-- repetitions, the opcodes of its main loop, the clock and the start.
pub mod Link
pub mod Control
pub mod Read
pub mod Write
pub mod Fuel
pub mod Receive
pub mod Results
pub mod Disk
pub mod Segments
pub mod Address
pub mod Sector
pub mod Sd
pub mod Boot
pub mod Wire
pub mod Rtc
pub mod Machine
pub mod Inject
pub mod Input
pub mod Menu
pub mod Start
pub mod Wait
pub mod SectorWrite
pub mod Copy
