-- ===== src/Board.antt =====
-- IOS and client joined by the SPI wires, and the client and the server by the network.
pub mod Wiring
pub mod Network
pub mod Fetch
pub mod Blocks
pub mod Seek
pub mod Open
pub mod Frames
pub mod Round
pub mod ReadHalf
pub mod ReadRounds
pub mod ReadSegment
pub mod SeekRead
pub mod WriteRounds
pub mod WriteSegment
pub mod OpenFrame
pub mod WriteFrame
pub mod Mount
pub mod Threads
pub mod Sector
pub mod DiskRead
pub mod WriteCarry
pub mod WriteOpen
pub mod WriteFlush
pub mod WriteEnd
pub mod SectorWrite
pub mod ReadBack
pub mod DebugKey
pub mod Program
pub mod ProgramWrite
