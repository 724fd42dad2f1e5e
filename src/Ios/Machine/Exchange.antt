-- ===== src/Ios/Machine/Exchange.antt =====
-- The accesses of the Z80 to its two ports, each a pass of the main loop of
-- S220718-R290823_IOS-Z80-MBC2.ino, and what they are for the disk.
use wi_fi_virt_disk.Base.{
  ℕ, zero, suc, ◌+◌, ◌<◌, ◌≤◌, ◌≡◌, ◌⊎◌, inl, inr, refl, ap, ap₂, ◌∙◌, sym, subst, Bool, true,
  false, List, [], ◌∷◌, arith, if-cases, if◌then◌else◌, ◌==◌, ◌||◌, leb, replicate,
}
use wi_fi_virt_disk.Ios.Disk.{
  Storage, DiskState, first_seek, next_segment, read_byte, read_sect, no_operation,
}
use wi_fi_virt_disk.Ios.Segments.{reads}
use wi_fi_virt_disk.Ios.Wire.{Ports}
use wi_fi_virt_disk.Ios.Machine.{Machine, with_opcode}
use wi_fi_virt_disk.Ios.Machine.Data.{given, sect_same, no_error}
use wi_fi_virt_disk.Ios.Machine.Read.{read_opcode, execute_read, end_read, io_read}
use wi_fi_virt_disk.Ios.Machine.Pass.{Signals, serve_z80, sys_tick, loop, serial_event}

-- OUT and IN of the Z80, with AD0
pub data Access : Type 0 where
  out : Bool → ℕ → Access
  inp : Bool → Access

-- The pins of an access; the rest of the signals is given.
unfoldable pub signals : Access → Signals → Signals
signals (out ad0 byte) i = record i { wait = false; wr = false; ad0 = ad0; bus_data = byte }
signals (inp ad0) i = record i { wait = false; wr = true; rd = false; ad0 = ad0 }

lt→leb_false : (a b : ℕ) → a < b → leb b a ≡ false
lt→leb_false a b h = ground arith

sect_opcode :
    {S : Storage} (d : DiskState S)
    → (read_sect d).io_opcode ≡ (if leb 511 d.io_byte_cnt then no_operation else d.io_opcode)
unfolding read_sect read_byte first_seek next_segment
sect_opcode d = ground arith

sect_count :
    {S : Storage} (d : DiskState S)
    → d.io_byte_cnt < 512
    → (read_sect d).io_byte_cnt ≡ d.io_byte_cnt + 1
unfolding read_sect
sect_count d small = omega arith

more_to_read :
    {S : Storage} (d : DiskState S) → d.io_byte_cnt < 511 → (read_sect d).io_opcode ≡ d.io_opcode
more_to_read d small =
    sect_opcode d
    ∙ ap (λ b. if b then no_operation else d.io_opcode) (lt→leb_false d.io_byte_cnt 511 small)

pub sect_code :
    {S : Storage} (d : DiskState S)
    → d.io_opcode ≡ 0x86
    → ((read_sect d).io_opcode ≡ 0x86) ⊎ ((read_sect d).io_opcode ≡ no_operation)
sect_code d code =
    subst (λ k. (k ≡ 0x86) ⊎ (k ≡ no_operation)) (sym (sect_opcode d))
      (if-cases (λ k. (k ≡ 0x86) ⊎ (k ≡ no_operation)) (leb 511 d.io_byte_cnt) no_operation
        d.io_opcode (λ t. inr refl) (λ f. inl code))

module _ {S : Storage} {P : Ports} where
  -- The event and the pass of an access
  unfoldable pub access : Access → Signals → Machine S P → Machine S P
  access a i m = (loop (signals a i) (serial_event m)).0

  -- The Z80 runs a program: its state and the bytes that it read. `f` gives the signals of a pass.
  unfoldable pub exchange : (ℕ → Signals) → ℕ → List Access → Machine S P → Machine S P × List ℕ
  exchange f k [] m = (m, [])
  exchange f k (out ad0 byte ∷ rest) m = exchange f (suc k) rest (access (out ad0 byte) (f k) m)
  exchange f k (inp ad0 ∷ rest) m =
      let m' = access (inp ad0) (f k) m in
      let (done, bytes) = exchange f (suc k) rest m' in (done, m'.disk.io_data ∷ bytes)

  pub tick_disk : (i : Signals) (m : Machine S P) → (sys_tick i m).disk ≡ m.disk
  unfolding sys_tick
  tick_disk i m = ground arith

  pub event_disk : (m : Machine S P) → (serial_event m).disk ≡ m.disk
  unfolding serial_event
  event_disk m = ground arith

  -- The end of a read changes nothing but the opcode.
  end_disk :
      (m : Machine S P)
      → (m.disk.io_opcode ≡ 0x86) ⊎ (m.disk.io_opcode ≡ no_operation)
      → (end_read m).disk ≡ m.disk
  unfolding end_read
  end_disk m (inl e) = ground arith
  end_disk m (inr e) =
      if-cases {A = Machine S P} (λ x. x.disk ≡ m.disk)
        ((m.disk.io_opcode == 0x84) || (m.disk.io_opcode == 0x86)) m (with_opcode no_operation m)
        (λ t. refl) (λ f. ap (λ k. record (m.disk) { io_opcode = k }) (sym e))

  read_sect_pass :
      (key : Bool) (m : Machine S P)
      → m.disk.io_opcode ≡ 0x86
      → (io_read false key m).disk ≡ read_sect (record (m.disk) { io_data = 0 })
  unfolding io_read execute_read read_opcode
  read_sect_pass key m code =
      let d : DiskState S = record (m.disk) { io_data = 0 } in
      let n : Machine S P = record m { disk = read_sect d } in
      let same : execute_read key (read_opcode m.disk.io_opcode) (record m { disk = d }) ≡ n =
        ap (λ k. execute_read key (read_opcode k) (record m { disk = d })) code in
      let done : (n.disk.io_opcode ≡ 0x86) ⊎ (n.disk.io_opcode ≡ no_operation) = sect_code d code in
      ap (λ x. (end_read x).disk) same ∙ end_disk n done

  pub read_access :
      (i : Signals) (m : Machine S P)
      → m.disk.io_opcode ≡ 0x86
      → (access (inp false) i m).disk ≡ read_sect (record (m.disk) { io_data = 0 })
  unfolding access signals loop serve_z80
  read_access i m code =
      let n = serial_event m in
      tick_disk (signals (inp false) i) (io_read false i.key n)
      ∙ (read_sect_pass i.key n (ap (λ d. d.io_opcode) (event_disk m) ∙ code)
          ∙ ap (λ d. read_sect (record d { io_data = 0 })) (event_disk m))

  -- The Z80 reads bytes of a sector: without an error in the end, they are those of `reads`, and the
  -- state of the disk is that of `reads` but for `ioData`.
  pub inputs :
      (f : ℕ → Signals) (n k x : ℕ) (m : Machine S P) (d : DiskState S)
      → m.disk ≡ given x d
      → (0 < n → d.io_opcode ≡ 0x86)
      → d.io_byte_cnt + n ≤ 512
      → (reads n d).0.disk_err ≡ 0
      → let (m', bytes) = exchange f k (replicate n (inp false)) m in
        (bytes ≡ (reads n d).1) × (y : ℕ) × (m'.disk ≡ given y (reads n d).0)
  unfolding reads exchange
  inputs f zero k x m d e code fits ok = (refl, x, e)
  inputs f (suc n) k x m d e code fits ok =
      let now = code (omega arith) in
      let m1 = access (inp false) (f k) m in
      let d1 = read_sect d in
      let (same, value) = sect_same 0 d in
      let y = (read_sect (given 0 d)).io_data in
      let reached : m1.disk ≡ given y d1 =
        read_access (f k) m (ap (λ z. z.io_opcode) e ∙ now)
        ∙ (ap (λ z. read_sect (given 0 z)) e ∙ same) in
      let count : d1.io_byte_cnt ≡ d.io_byte_cnt + 1 = sect_count d (omega arith) in
      let later : 0 < n → d1.io_opcode ≡ 0x86 = λ more. more_to_read d (omega arith) ∙ now in
      let (bytes, z, disk) = inputs f n (suc k) y m1 d1 reached later (omega arith) ok in
      let byte : m1.disk.io_data ≡ d1.io_data =
        ap (λ z. z.io_data) reached ∙ value (no_error n d1 ok) in
      (ap₂ (λ b bs. b ∷ bs) byte bytes, z, disk)
