-- ===== src/Ios/Read.antt =====
-- `vd_read` (virtDisk.cpp, S220718-R290823_IOS-Z80-MBC2): a segment of 32 bytes in two halves.
use wi_fi_virt_disk.Base.{
  ℕ, zero, suc, ◌+◌, ◌*◌, Bool, true, false, ◌&&◌, List, [], ◌∷◌, Option, none, some, if◌then◌else◌,
  ◌==◌, ltb, leb, get_or, set, u8, min,
}
use wi_fi_virt_disk.Packet.{code, Command}
use wi_fi_virt_disk.Spi.{seal_byte, add_bytes}
use wi_fi_virt_disk.Ios.Link.{SpiLink, Master, command, rd_data, fr_ok, fr_disk_err, max_attempts}

-- VD_CMD_RD_FILE, the offset in units of 16 bytes, and 16 bytes wanted
unfoldable pub read_frame : ℕ → List ℕ
read_frame offset =
    code Command.rd_file ∷ offset ∷ 16 ∷ seal_byte (code Command.rd_file ∷ offset ∷ 16 ∷ []) ∷ []

-- VD_CMD_RD_NEXT or VD_CMD_WR_NEXT, and the number of bytes
unfoldable pub next_frame : Command → ℕ → List ℕ
next_frame c len = code c ∷ len ∷ seal_byte (code c ∷ len ∷ []) ∷ []

-- The variables of `vd_read` and what it stores through its pointers: `taken` is `*br`, with `none`
-- for a variable that was not written.
pub record Reading : Type 0 where
  pub status : ℕ
  pub offset : ℕ
  pub attempts : ℕ
  pub data_len : ℕ
  pub buff : List ℕ
  pub taken : Option ℕ

-- The bytes of an answer frame into the buffer, with the rounds left
unfoldable pub copy_bytes : List ℕ → ℕ → List ℕ → List ℕ
copy_bytes buff at [] = buff
copy_bytes buff at (b ∷ bytes) = copy_bytes (set buff at b) (at + 1) bytes

-- the first `n` bytes that came in, after the command byte
unfoldable pub body : List ℕ → ℕ → ℕ → List ℕ
body bytes i zero = []
body bytes i (suc n) = get_or bytes (i + 1) 0 ∷ body bytes (i + 1) n

module _ {S : SpiLink} where
  open S use {transfer}

  -- The second transmission of a round: `k` is the smaller of `vdStatus.cmd_data` and `btr`. The
  -- bytes are in the buffer whether or not the checksum is right.
  unfoldable pub receive : ℕ → Reading → Master S → Master S × Reading
  receive btr r m =
      let k = min m.vd_status.cmd_data btr in
      let (wire', bytes) = transfer m.wire (rd_data ∷ 0 ∷ []) (k + 2) in
      let got = body bytes 0 k in
      let sum = u8 (add_bytes (u8 (get_or bytes 0 0)) got + get_or bytes (k + 1) 0) in
      let copied = record r { buff = copy_bytes r.buff (r.offset * 16) got } in
      let total = u8 (r.data_len + m.vd_status.cmd_data) in
      let halves = r.offset + 1 in
      let finished = if ltb 1 halves then some total else r.taken in
      (
        record m { wire = wire' },
        if sum == 0
            then record copied { data_len = total; offset = halves; taken = finished }
            else copied,
      )

  -- `do … while( offset < 2 )`. Only a round with a bad status tests `attempts`, a `uint8_t`.
  -- `none` means that the fuel ran out.
  unfoldable pub read_loop : ℕ → ℕ → Reading → Master S → Option (Master S × Reading)
  read_loop zero btr r m = none
  read_loop (suc fuel) btr r m =
      let tried = record r { attempts = u8 (r.attempts + 1) } in
      let (m', spi_stat) = command m (read_frame r.offset) in
      let (m'', r') = receive btr tried m' in
      let after_data = read_loop fuel btr r' m'' in
      let after_error = read_loop fuel btr tried m' in
      if m'.vd_status.cmd_status == 0 && spi_stat == 0
      then if ltb r'.offset 2 then after_data else some (m'', r')
      else if ltb (2 * max_attempts) tried.attempts
      then some (m', record tried { status = fr_disk_err })
      else after_error

  -- The loop that ends a read or a write; whether the client accepted it.
  unfoldable pub next_loop : ℕ → ℕ → List ℕ → Master S → Master S × Bool
  next_loop zero attempts frame m = (m, false)
  next_loop (suc fuel) attempts frame m =
      let (m', spi_stat) = command m frame in
      let again = next_loop fuel (attempts + 1) frame m' in
      if m'.vd_status.cmd_status == 0 && spi_stat == 0
      then (m', true)
      else if leb (attempts + 1) max_attempts
      then again
      else (m', false)

  -- What `vd_read` does behind its loop
  unfoldable pub finish_read : Reading → Master S → Master S × Reading
  finish_read r m =
      let (m', accepted) = next_loop 5 0 (next_frame Command.rd_next r.data_len) m in
      if r.status == fr_ok
      then (m', if accepted then r else record r { status = fr_disk_err })
      else (m, r)

  -- `vd_read( buff, btr, br )`
  unfoldable pub vd_read : ℕ → List ℕ → ℕ → Master S → Option (Master S × Reading)
  vd_read fuel buff btr m =
      let start : Reading = record {
        status = fr_ok;
        offset = 0;
        attempts = 0;
        data_len = 0;
        buff = buff;
        taken = none;
      } in
      elim (read_loop fuel btr start m) [ none ↦ none | some (m', r) ↦ some (finish_read r m') ]
