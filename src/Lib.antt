-- ===== src/Lib.antt =====
-- WiFi-VirtDisk gives a Z80-MBC2 its disks from files of a PC. Three programs work together:
--   - the IOS, the firmware of the Z80-MBC2's Atmega (S220718-R290823_IOS-Z80-MBC2), which is the
--     master on an SPI wire;
--   - the client on an ESP8266 (WiFi-VirtDisk-Client), the slave on that wire and a TCP client;
--   - the server on a PC (WiFi-VirtDisk-Server), which has the disks: plain image files, and
--     directories that LibDsk shows as CP/M disks (the emulated disks). A disk function of the IOS
--     sends a frame of up to 32 bytes; the client checks its sum, exchanges a packet of 536 bytes
--     with the server where it needs one, and shows four status bytes.
--
-- What is where:
--   - Base: numbers, lists and Boolean tests that all parts share.
--   - Decimal: std::to_string, std::stoi and atoi.
--   - Packet: vdPacket_t, vdCommands and vdStatus of virtDisk.hpp (server and client). Wire has the
--     round trip through rawData, Name the name in a packet, Sizes that received bytes are a packet.
--   - Spi: vdStatus_t and the checksum byte of the frames; Checksum has the arithmetic.
--   - Hspi: hspi_slave_setData, SPISlaveClass::setData and the byte order of the data registers.
--   - Client: vdProcessCmd of WiFi-VirtDisk-Client/virtDisk.cpp, one function for each command:
--     Control (STATUS, SEL_FILE, SEEK_FILE), Read (RD_FILE, RD_NEXT), Write (WR_FILE, WR_NEXT),
--     Process (the switch), State (the globals, waitForTcpData, SPIOnData). Reject is about frames
--     with a wrong checksum, Fill and Answer about the answer to a read, Invariant has the
--     runs of frames and passes (Reach), the flags that they leave (Reported) and the accesses
--     outside of the frame buffers (Fault). Loop is the main loop of WiFi-VirtDisk-Client.ino, with
--     Flags and Pass about tcpSrvStatus and Pins about the pins; Settings is the saving of the
--     settings in setup.
--   - Server: vdProcessCmd and vdReloadDiskImage of WiFi-VirtDisk-Server/src/virtDisk.cpp: Stream
--     (std::fstream), Device (Device_open and Device_close of cpmtools/device_libdsk.c), State,
--     Select (SEL_FILE, SEEK_FILE), Transfer (RD_FILE, WR_FILE), Process (the switch). Image is the
--     abstract disk, Refine relates the two; Replies, Failures and Sizes are about replies, errors
--     and arrays. Main is WiFi-VirtDisk-Server.cpp: what main does with a connection and with a
--     key, Workers the rounds of handleTcpClient and handleDbgClient, Shutdown the end of main;
--     Rounds and Handover are about connections that are replaced. Settings is readConfig.
--   - Ios: virtDisk.cpp of S220718-R290823_IOS-Z80-MBC2: Link (rdStatus_spi, waitReady_spi),
--     Control (vd_status, vd_mount, vd_open, vd_lseek), Read (vd_read), Write (vd_write). Fuel is
--     about their loops, Receive about a half that arrives, Results about what they return.
--   - Ios.Disk: SELDISK, SELTRACK, SELSECT, WRITESECT and READSECT of the main loop in
--     S220718-R290823_IOS-Z80-MBC2.ino, one call for each byte of the Z80, over openSD, seekSD,
--     readSD and writeSD as a parameter (Storage); Segments, Copy, Sector, SectorWrite and Address
--     are about them. Sd has mountSD, openSD, seekSD, readSD and writeSD, which are the Storage of
--     Board.
--   - Ios.Machine has the rest of that file's main loop: the state of the board, Gpio (the port
--     expander and the printer port), Write and Read (the engines with the switches on ioOpcode)
--     and Pass (loop, serialEvent, the control bus and the Systick). Exchange, Data, Select and
--     Outputs are about runs of OUT and IN instructions, Interrupts and Interrupts.Runs about the
--     interrupts.
--   - Ios.Wire has the accesses to the I2C bus, Rtc readRTC and writeRTC (ReadBack is about both),
--     and Rtc.Change is ChangeRTC, with its Range, Rtc.AutoSet autoSetRTC, with the Strings of the
--     compiler.
--   - Ios.Boot is the loading of the boot program in setup of that file, over any Storage, with Card
--     and Memory about the SD card; Inject is the way of its bytes into the RAM of the Z80 (loadHL,
--     loadByteToRAM), where Cpu is a Z80 by clock cycles with the three instructions that are used
--     and Stored what its memory holds. Input is `input`, Input.Text its string. Menu has the settings in the EEPROM and the boot menu, with Saved
--     about both; Wait is the wait for the client, Start the choice of the boot program.
--   - Board: the parts at each other. Wiring has the slave's side of a transmission and the server
--     behind the network; Frames, OpenFrame and WriteFrame are about single frames, Round and
--     ReadHalf about a frame and its answer, ReadSegment and WriteSegment about whole calls of
--     vd_read and vd_write, Network about a packet and its reply, Fetch, Seek and SeekRead about
--     the way from the IOS to the image and back, Blocks about the bytes of a block; Sector,
--     WriteOpen, WriteCarry, WriteFlush, WriteEnd, SectorWrite and ReadBack are about whole
--     sectors, Open about vd_open, DiskRead about a read from SELDISK on, Program and ProgramWrite
--     about the whole programs of the Z80. Mount joins vd_mount to the main loop of the client,
--     Threads the network to the threads of the server, DebugKey a key at the server to the pins at
--     the client. The client handles a frame before the next transmission begins, a reply is there
--     at the first poll, and what the slave's buffer holds behind a frame is taken as zeros.
--   - Tests: concrete states.
--
-- How state is modelled: the globals of a program are the fields of one record, and a function takes
-- it and gives it back. `C` arrays are lists of bytes, a `uint8_t` that is added to is taken modulo
-- 2 ^ 8. Each access of the client outside of an array sets the field `fault`. A file is a path and
-- its bytes, and the place in it, an int in the source, is a natural number; a stream has a position and the bits eof and fail, as std::fstream has.
--
-- Threads: the two kinds of threads of the server and its main loop share a record (Hub), and a run
-- is a sequence of their rounds in any order (Server.Main.Handover). A round of handleDbgClient
-- lasts from one wait to the next, which the mutex sees to; rounds of handleTcpClient are taken as
-- undivided, which the source does not see to.
--
-- Parameters: LibDsk (dsk_open, dsk_close, dsk_getgeom, dsk_lread, dsk_lwrite and the format table)
-- of the server; the WiFiClient of the client (TcpLink); what the libraries answer to its main loop
-- (Poll); the SPI hardware of the IOS (SpiLink); its serial port and its I2C bus, the Arduino
-- libraries Serial and Wire (Ports); Petit FatFs (PetitFs); SimpleIni (Ini). Theorems that need
-- more of them say so: that a logical read of LibDsk fills its buffer (FillsBuffer), that
-- the DS3231 keeps its registers (KeepsRegisters), and what pf_read gives of a file while the card
-- works (ReadsFile). `strtoul` is an argument of the menu, and the EEPROM is the function of its
-- bytes.
--
-- Fuel: the IOS loops run on fuel. waitReady_spi doubles its delay and stops above 512, so ten
-- rounds are enough; vd_status, vd_open and vd_lseek count two attempts a round and stop above
-- four, so three are; the loop that closes a transfer has five; that of vd_write at most ten. The
-- loop of vd_read has no bound of its own, and gives `none` when the fuel ends; readSD then sets
-- the field `hung`. The loops of Boot have fuel for the segments and for the tries. The argument
-- `stray` is what a C variable without an initial value holds. waitForTcpData has its 500 rounds.
--
-- Not modelled: what is only printed; the WiFi code and the rest of setup of the client; the
-- sockets and the command line of the server; the keyboard; the rest of the setup of the IOS, with
-- its baud recovery; the delays; LibDsk, the rest of cpmtools, socket-cpp, SimpleIni, argparse and
-- Petit FatFs, which are libraries of other projects.
pub mod Base
pub mod Packet
pub mod Spi
pub mod Hspi
pub mod Client
pub mod Decimal
pub mod Server
pub mod Ios
pub mod Board
pub mod Tests
