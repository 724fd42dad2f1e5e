-- ===== src/Ios/Machine/Select.antt =====
-- SELDISK, SELTRACK and SELSECT as accesses of the Z80 (S220718-R290823_IOS-Z80-MBC2.ino).
use wi_fi_virt_disk.Base.{ℕ, ◌≡◌, refl, ap, ◌∙◌, true, false, arith, if◌then◌else◌, ◌==◌, ◌||◌}
use wi_fi_virt_disk.Ios.Disk.{
  Storage, DiskState, store_opcode, sel_disk, sel_track, sel_sect, no_operation,
}
use wi_fi_virt_disk.Ios.Wire.{Ports}
use wi_fi_virt_disk.Ios.Machine.{Machine, with_data}
use wi_fi_virt_disk.Ios.Machine.Write.{write_opcode, execute_write, end_write, io_write}
use wi_fi_virt_disk.Ios.Machine.Pass.{Signals, serve_z80, loop, serial_event}
use wi_fi_virt_disk.Ios.Machine.Data.{given}
use wi_fi_virt_disk.Ios.Machine.Exchange.{out, signals, access, tick_disk, event_disk}

-- The end of a write, on the disk
abbrev pub write_ended : {S : Storage} → DiskState S → DiskState S
write_ended d =
    if (d.io_opcode == 0x0A) || (d.io_opcode == 0x0C)
    then d
    else record d { io_opcode = no_operation }

select_opcode : {S : Storage} (d : DiskState S) → (sel_disk d).io_opcode ≡ d.io_opcode
unfolding sel_disk
select_opcode d = ground arith

module _ {S : Storage} {P : Ports} where
  -- STORE OPCODE
  pub store_access :
      (code : ℕ) (i : Signals) (m : Machine S P)
      → (access (out true code) i m).disk ≡ store_opcode code (given code m.disk)
  unfolding access signals loop serve_z80 io_write
  store_access code i m =
      tick_disk (signals (out true code) i) (io_write true code (serial_event m))
      ∙ ap (λ d. store_opcode code (given code d)) (event_disk m)

  ended_disk : (m : Machine S P) → (end_write m).disk ≡ write_ended m.disk
  unfolding end_write
  ended_disk m = ground arith

  -- An opcode that only works on the disk
  pub disk_access :
      (code byte : ℕ) (i : Signals) (step : DiskState S → DiskState S) (m : Machine S P)
      → ((n : Machine S P) → (execute_write (write_opcode code) n).disk ≡ step n.disk)
      → m.disk.io_opcode ≡ code
      → (access (out false byte) i m).disk ≡ write_ended (step (given byte m.disk))
  unfolding access signals loop serve_z80 io_write
  disk_access code byte i step m does stored =
      let n = with_data byte (serial_event m) in
      let now : n.disk.io_opcode ≡ code = ap (λ d. d.io_opcode) (event_disk m) ∙ stored in
      let done : (execute_write (write_opcode n.disk.io_opcode) n).disk ≡ step n.disk =
        ap (λ k. (execute_write (write_opcode k) n).disk) now ∙ does n in
      tick_disk (signals (out false byte) i) (io_write false byte (serial_event m))
      ∙ (ended_disk (execute_write (write_opcode n.disk.io_opcode) n)
          ∙ (ap write_ended done ∙ ap (λ d. write_ended (step (given byte d))) (event_disk m)))

  disk_selected :
      (byte : ℕ) (i : Signals) (m : Machine S P)
      → m.disk.io_opcode ≡ 0x09
      → (access (out false byte) i m).disk ≡ write_ended (sel_disk (given byte m.disk))
  unfolding execute_write write_opcode
  disk_selected byte i m = disk_access 0x09 byte i sel_disk m (λ n. refl)

  track_selected :
      (byte : ℕ) (i : Signals) (m : Machine S P)
      → m.disk.io_opcode ≡ 0x0A
      → (access (out false byte) i m).disk ≡ write_ended (sel_track (given byte m.disk))
  unfolding execute_write write_opcode
  track_selected byte i m = disk_access 0x0A byte i sel_track m (λ n. refl)

  sector_selected :
      (byte : ℕ) (i : Signals) (m : Machine S P)
      → m.disk.io_opcode ≡ 0x0B
      → (access (out false byte) i m).disk ≡ write_ended (sel_sect (given byte m.disk))
  unfolding execute_write write_opcode
  sector_selected byte i m = disk_access 0x0B byte i sel_sect m (λ n. refl)

  -- SELDISK
  pub select_program :
      (number : ℕ) (i j : Signals) (m : Machine S P)
      → (access (out false number) j (access (out true 0x09) i m)).disk
        ≡ record (sel_disk (record (store_opcode 0x09 m.disk) { io_data = number })) {
          io_opcode = no_operation;
        }
  unfolding store_opcode
  select_program number i j m =
      let m1 = access (out true 0x09) i m in
      let e1 = store_access 0x09 i m in
      let d2 : DiskState S = sel_disk (record (store_opcode 0x09 m.disk) { io_data = number }) in
      disk_selected number j m1 (ap (λ d. d.io_opcode) e1)
      ∙ (ap (λ d. write_ended (sel_disk (given number d))) e1
          ∙ ap
              (λ k.
                if (k == 0x0A) || (k == 0x0C) then d2 else record d2 { io_opcode = no_operation })
              (select_opcode (record (store_opcode 0x09 m.disk) { io_data = number })))

  -- SELTRACK
  pub track_program :
      (low high : ℕ) (i j k : Signals) (m : Machine S P)
      → (access (out false high) k (access (out false low) j (access (out true 0x0A) i m))).disk
        ≡ sel_track (record (sel_track (record (store_opcode 0x0A m.disk) { io_data = low })) {
          io_data = high;
        })
  unfolding store_opcode sel_track
  track_program low high i j k m =
      let m1 = access (out true 0x0A) i m in
      let m2 = access (out false low) j m1 in
      let e1 = store_access 0x0A i m in
      let e2 =
        track_selected low j m1 (ap (λ d. d.io_opcode) e1)
        ∙ ap (λ d. write_ended (sel_track (given low d))) e1 in
      track_selected high k m2 (ap (λ d. d.io_opcode) e2)
      ∙ ap (λ d. write_ended (sel_track (given high d))) e2

  -- SELSECT
  pub sector_program :
      (sector : ℕ) (i j : Signals) (m : Machine S P)
      → (access (out false sector) j (access (out true 0x0B) i m)).disk
        ≡ record (sel_sect (record (store_opcode 0x0B m.disk) { io_data = sector })) {
          io_opcode = no_operation;
        }
  unfolding store_opcode sel_sect
  sector_program sector i j m =
      let m1 = access (out true 0x0B) i m in
      let e1 = store_access 0x0B i m in
      sector_selected sector j m1 (ap (λ d. d.io_opcode) e1)
      ∙ ap (λ d. write_ended (sel_sect (given sector d))) e1
