-- ===== src/Ios/Segments.antt =====
-- READSECT over the bytes of a segment.
use wi_fi_virt_disk.Base.{
  ℕ, zero, suc, ◌+◌, ◌*◌, ◌%◌, ◌<◌, ◌≤◌, ◌≡◌, refl, ap, ◌∙◌, List, [], ◌∷◌, if◌then◌else◌, leb,
  get_or, u16, arith,
}
use wi_fi_virt_disk.Client.Fill.{window}
use wi_fi_virt_disk.Ios.Disk.{
  Storage, DiskState, first_seek, next_segment, read_byte, read_sect, no_operation,
}

window-cons :
    (xs : List ℕ) (at n : ℕ) → window xs at (suc n) ≡ get_or xs at 0 ∷ window xs (at + 1) n
unfolding window
window-cons xs at n = refl

window-none : (xs : List ℕ) (at : ℕ) → window xs at 0 ≡ []
unfolding window
window-none xs at = refl

module _ {S : Storage} where
  -- The Z80 reads `n` bytes.
  unfoldable pub reads : ℕ → DiskState S → DiskState S × List ℕ
  reads zero d = (d, [])
  reads (suc n) d =
      let got = read_sect d in let (done, bytes) = reads n got in (done, got.io_data ∷ bytes)

  -- A byte inside of a segment comes from the buffer.
  inside :
      (d : DiskState S) (i : ℕ)
      → d.disk_err ≡ 0
      → d.io_byte_cnt % 32 ≡ i
      → 0 < i
      → d.io_byte_cnt < 512
      → read_sect d ≡ record d {
        io_data = get_or d.buffer_sd i 0;
        io_opcode = if leb 511 d.io_byte_cnt then no_operation else d.io_opcode;
        io_byte_cnt = d.io_byte_cnt + 1;
      }
  unfolding read_sect read_byte first_seek
  inside d i ok at pos small = ground (arith, ap (λ k. get_or d.buffer_sd k 0) at)

  -- The state behind the bytes of a segment: all of it read, and the opcode done at the sector's end
  abbrev pub Behind : DiskState S → ℕ → DiskState S → Type 0
  Behind d count done =
      (done.storage ≡ d.storage)
      × (done.buffer_sd ≡ d.buffer_sd)
      × (done.disk_err ≡ 0)
      × (done.io_byte_cnt ≡ count)
      × (count < 512 → done.io_opcode ≡ d.io_opcode)
      × (count ≡ 512 → done.io_opcode ≡ no_operation)

  -- the state behind a byte inside of a segment
  abbrev stepped : DiskState S → ℕ → DiskState S
  stepped d i = record d {
    io_data = get_or d.buffer_sd i 0;
    io_opcode = if leb 511 d.io_byte_cnt then no_operation else d.io_opcode;
    io_byte_cnt = d.io_byte_cnt + 1;
  }

  reads-cons :
      (n : ℕ) (d e : DiskState S)
      → read_sect d ≡ e
      → reads (suc n) d ≡ ((reads n e).0, e.io_data ∷ (reads n e).1)
  unfolding reads
  reads-cons n d e h = λ i. ((reads n (h i)).0, (h i).io_data ∷ (reads n (h i)).1)

  reads-none : (d : DiskState S) → reads 0 d ≡ (d, [])
  unfolding reads
  reads-none d = refl

  Read : ℕ → DiskState S → ℕ → Type 0
  Read n d i = ((reads n d).1 ≡ window d.buffer_sd i n) × Behind d (d.io_byte_cnt + n) (reads n d).0

  reads-inside :
      (n : ℕ) (d : DiskState S) (i : ℕ)
      → d.disk_err ≡ 0
      → d.io_byte_cnt % 32 ≡ i
      → 0 < i
      → i + suc n ≤ 32
      → d.io_byte_cnt < 512
      → Read (suc n) d i
  unfolding Read
  reads-inside zero d i ok at pos fit small =
      let last = reads-cons 0 d (stepped d i) (inside d i ok at pos small) in
      rw
        (
          last,
          reads-none (stepped d i),
          window-cons d.buffer_sd i 0,
          window-none d.buffer_sd (i + 1),
        )
        (refl, (refl, refl, ok, refl, λ h. ground arith, λ h. ground arith))
  reads-inside (suc n) d i ok at pos fit small =
      let e = stepped d i in
      let (bytes, (storage, buffer, fine, count, going, ended)) =
        reads-inside n e (i + 1) ok (omega arith) (omega arith) (omega arith) (omega arith) in
      let number : d.io_byte_cnt + 1 + suc n ≡ d.io_byte_cnt + suc (suc n) = omega arith in
      let opcode : e.io_opcode ≡ d.io_opcode = ground arith in
      rw (reads-cons (suc n) d e (inside d i ok at pos small), window-cons d.buffer_sd i (suc n))
        (
          (λ j. get_or d.buffer_sd i 0 ∷ bytes j),
          (
            storage,
            buffer,
            fine,
            count ∙ number,
            (λ h. going (omega arith) ∙ opcode),
            (λ h. ended (omega arith)),
          ),
        )

  -- the state behind the first byte of a segment
  abbrev opened : DiskState S → S.State → List ℕ → DiskState S
  opened d after buff = record d {
    storage = after;
    buffer_sd = buff;
    disk_err = 0;
    io_data = get_or buff 0 0;
    io_byte_cnt = d.io_byte_cnt + 1;
  }

  first_seek-keeps :
      (d : DiskState S)
      → ((first_seek d).disk_set ≡ d.disk_set)
        × ((first_seek d).track_sel ≡ d.track_sel)
        × ((first_seek d).sect_sel ≡ d.sect_sel)
        × ((first_seek d).io_opcode ≡ d.io_opcode)
        × ((first_seek d).io_byte_cnt ≡ d.io_byte_cnt)
  unfolding first_seek
  first_seek-keeps d = ground arith

  read_byte-first :
      (p : DiskState S) (after : S.State) (buff : List ℕ)
      → p.io_byte_cnt % 32 ≡ 0
      → p.disk_err ≡ 0
      → S.read_sd p.storage p.buffer_sd ≡ (after, 0, buff, 32)
      → read_byte p
        ≡ record p { storage = after; buffer_sd = buff; disk_err = 0; io_data = get_or buff 0 0 }
  unfolding read_byte next_segment
  read_byte-first p after buff at ok got = rw (at, ok, got) refl

  first :
      (d : DiskState S) (k : ℕ) (after : S.State) (buff : List ℕ)
      → k < 16
      → d.io_byte_cnt ≡ 32 * k
      → (first_seek d).disk_err ≡ 0
      → S.read_sd (first_seek d).storage (first_seek d).buffer_sd ≡ (after, 0, buff, 32)
      → read_sect d ≡ opened d after buff
  unfolding read_sect
  first d k after buff hk at ok got =
      let p = first_seek d in
      let (set_is, track_is, sector_is, opcode_is, count_is) = first_seek-keeps d in
      let read = read_byte-first p after buff (omega arith) ok got in
      let going : (if leb 511 d.io_byte_cnt then no_operation else p.io_opcode) ≡ d.io_opcode =
        ground (arith, opcode_is) in
      let number : u16 (d.io_byte_cnt + 1) ≡ d.io_byte_cnt + 1 = omega arith in
      rw read (λ j. record {
        storage = after;
        disk_set = set_is j;
        track_sel = track_is j;
        sect_sel = sector_is j;
        disk_err = 0;
        buffer_sd = buff;
        io_data = get_or buff 0 0;
        io_opcode = going j;
        io_byte_cnt = number j;
      })

  -- With the file at the right place and a read that gives 32 bytes, the Z80 gets those bytes in
  -- order, one a call; the byte counter has moved by 32, no error is set, and the opcode is done
  -- exactly if these were the last bytes of the sector.
  pub segment_bytes :
      (d : DiskState S) (k : ℕ) (after : S.State) (buff : List ℕ)
      → k < 16
      → d.io_byte_cnt ≡ 32 * k
      → (first_seek d).disk_err ≡ 0
      → S.read_sd (first_seek d).storage (first_seek d).buffer_sd ≡ (after, 0, buff, 32)
      → ((reads 32 d).1 ≡ window buff 0 32)
        × Behind (record d { storage = after; buffer_sd = buff }) (32 * k + 32) (reads 32 d).0
  unfolding Read
  segment_bytes d k after buff hk at ok got =
      let e = opened d after buff in
      let (bytes, (storage, buffer, fine, count, going, ended)) =
        reads-inside 30 e 1 refl (omega arith) (omega arith) (omega arith) (omega arith) in
      rw (reads-cons 31 d e (first d k after buff hk at ok got), window-cons buff 0 31)
        (
          (λ j. get_or buff 0 0 ∷ bytes j),
          (
            storage,
            buffer,
            fine,
            count ∙ omega arith,
            (λ h. going (omega arith)),
            (λ h. ended (omega arith)),
          ),
        )
