-- ===== src/Board/WriteEnd.antt =====
-- `writeSD` over `vd_write`, and the end of a write through to the client.
use wi_fi_virt_disk.Base.{
  ℕ, ◌≡◌, refl, ap, ◌∙◌, sym, subst, true, List, [], none, some, arith, length, u8, c_string,
}
use wi_fi_virt_disk.Packet.{IsPacket}
use wi_fi_virt_disk.Packet.Name.{IsTerminated}
use wi_fi_virt_disk.Client.State.{TcpLink, VdData, status_reset}
use wi_fi_virt_disk.Server.Device.{LibDsk}
use wi_fi_virt_disk.Server.State.{Config, Server}
use wi_fi_virt_disk.Ios.Link.{SpiLink, Master, fr_ok}
use wi_fi_virt_disk.Ios.Write.{Writing, vd_write}
use wi_fi_virt_disk.Ios.Sd.{PetitFs, SdState, write_sd}
use wi_fi_virt_disk.Board.Wiring.{spi_link, tcp_link}
use wi_fi_virt_disk.Board.Seek.{Selected}
use wi_fi_virt_disk.Board.WriteRounds.{
  closed, written, written-closed, finish-closes, finish_write-accepted,
}
use wi_fi_virt_disk.Board.WriteCarry.{written-none}

pub vd_write_sd :
    {S : SpiLink} {F : PetitFs} (fuel stray : ℕ) (s : SdState S F) (buff : List ℕ) (m' : Master S)
    (w : Writing) (n : ℕ)
    → s.virt_disk_flag ≡ true
    → vd_write buff 32 s.master ≡ (m', w)
    → w.written ≡ some n
    → write_sd fuel stray s (some buff) ≡ (record s { master = m' }, w.status, u8 n)
unfolding write_sd
vd_write_sd fuel stray s buff m' w n flag done count = rw (flag, done, count) refl

pub vd_end_sd :
    {S : SpiLink} {F : PetitFs} (fuel stray : ℕ) (s : SdState S F) (m' : Master S) (w : Writing)
    (n : ℕ)
    → s.virt_disk_flag ≡ true
    → vd_write [] 0 s.master ≡ (m', w)
    → w.written ≡ some n
    → write_sd fuel stray s none ≡ (record s { master = m' }, w.status, u8 n)
unfolding write_sd
vd_end_sd fuel stray s m' w n flag done count = rw (flag, done, count) refl

-- The end of a write: VD_CMD_WR_NEXT of no bytes
module _ {L : TcpLink} (wifi : ℕ) (m : Master (spi_link L wifi)) where
  abbrev pub ended : Master (spi_link L wifi)
  ended = record { wire = written wifi 0 m; vd_status = status_reset }

  abbrev nothing_written : Writing
  nothing_written = record {
    status = fr_ok;
    offset = 0;
    attempts = 0;
    data_len = 0;
    written = some 0;
  }

  pub vd_write-none : vd_write [] 0 m ≡ (ended, nothing_written)
  unfolding vd_write
  vd_write-none = finish_write-accepted nothing_written m ended refl (finish-closes wifi 0 m)

closed-filename : (d : VdData) (n : ℕ) → (closed d n).filename ≡ d.filename
closed-filename d n = ground arith

-- The end of a write leaves the client as it was selected.
pub ended-Selected :
    {D : LibDsk} (g : Config) (wifi : ℕ) (name : List ℕ) (s : Server D)
    (m : Master (spi_link (tcp_link D g) wifi))
    → Selected g name s m.wire
    → m.wire.vd_data.file_pos ≡ 0
    → Selected g name s (written wifi 0 m)
ended-Selected g wifi name s m v zero_pos =
    let (packet, net) = written-none wifi m (λ e. omega arith) in
    let same = ap (λ d. d.filename) (written-closed wifi 0 m) ∙ closed-filename m.wire.vd_data 0 in
    record {
      quiet = net ∙ v.quiet;
      packet_fits = subst IsPacket (sym packet) v.packet_fits;
      name_13 = ap length same ∙ v.name_13;
      ends = subst IsTerminated (sym same) v.ends;
      named = ap c_string same ∙ v.named;
    }
