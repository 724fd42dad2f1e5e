-- ===== src/Ios/SectorWrite.antt =====
-- WRITESECT over the bytes of a segment.
pub mod Run
use wi_fi_virt_disk.Base.{
  ℕ, zero, suc, ◌+◌, ◌-◌, ◌*◌, ◌%◌, ◌<◌, ◌≤◌, ◌≡◌, ◌≢◌, refl, ap, ◌∙◌, sym, subst, List, [], ◌∷◌,
  ◌++◌, Option, none, some, append_assoc, append-nil, arith, length, set, take, drop,
  take-append-drop, length-take, length-drop, ne→==_false, if◌then◌else◌, ◌==◌, leb, u16,
  length-set, length-append,
}
use wi_fi_virt_disk.Ios.Read.{copy_bytes}
use wi_fi_virt_disk.Ios.Copy.{copy_bytes-append, copy_bytes-whole}
use wi_fi_virt_disk.Ios.Disk.{
  Storage, DiskState, first_seek, write_byte, write_sect, flush_segment, no_operation,
}

module _ {S : Storage} where
  -- The Z80 writes bytes.
  unfoldable pub writes : List ℕ → DiskState S → DiskState S
  writes [] d = d
  writes (b ∷ bs) d = writes bs (write_sect (record d { io_data = b }))

  pub writes-append :
      (xs ys : List ℕ) (d : DiskState S) → writes (xs ++ ys) d ≡ writes ys (writes xs d)
  unfolding writes
  writes-append [] ys d = refl
  writes-append (x ∷ xs) ys d = writes-append xs ys (write_sect (record d { io_data = x }))

  abbrev pub given : DiskState S → ℕ → DiskState S
  given d b = record d { io_data = b }

  pub later_seek : (d : DiskState S) → d.io_byte_cnt ≢ 0 → first_seek d ≡ d
  unfolding first_seek
  later_seek d h = rw (ne→==_false d.io_byte_cnt 0 h) refl

  -- A byte that is not the last one of a segment goes to the buffer.
  inside :
      (e p : DiskState S)
      → first_seek e ≡ p
      → p.disk_err ≡ 0
      → p.io_byte_cnt ≡ e.io_byte_cnt
      → e.io_byte_cnt % 32 ≢ 31
      → e.io_byte_cnt < 512
      → write_sect e ≡ record p {
        buffer_sd = set p.buffer_sd (e.io_byte_cnt % 32) p.io_data;
        io_byte_cnt = e.io_byte_cnt + 1;
      }
  unfolding write_sect write_byte
  inside e p sought ok same at small =
      let number : u16 (e.io_byte_cnt + 1) ≡ e.io_byte_cnt + 1 = omega arith in
      rw (sought, ok, same, ne→==_false (e.io_byte_cnt % 32) 31 at, number) refl

  -- With the last byte the buffer goes to the storage.
  at_end :
      (e : DiskState S)
      → e.disk_err ≡ 0
      → e.io_byte_cnt % 32 ≡ 31
      → e.io_byte_cnt < 512
      → write_sect e
        ≡ record (flush_segment (record e { buffer_sd = set e.buffer_sd 31 e.io_data })) {
          io_byte_cnt = e.io_byte_cnt + 1;
        }
  unfolding write_sect write_byte
  at_end e ok at small =
      let number : u16 (e.io_byte_cnt + 1) ≡ e.io_byte_cnt + 1 = omega arith in
      rw (later_seek e (λ z. omega arith), ok, at, number) refl

  -- the state behind bytes inside of a segment
  abbrev Filled : DiskState S → ℕ → List ℕ → DiskState S → Type 0
  Filled d i xs e =
      (e.storage ≡ d.storage)
      × (e.buffer_sd ≡ copy_bytes d.buffer_sd i xs)
      × (e.disk_err ≡ 0)
      × (e.io_byte_cnt ≡ d.io_byte_cnt + length xs)

  fills :
      (xs : List ℕ) (d : DiskState S) (i : ℕ)
      → d.disk_err ≡ 0
      → d.io_byte_cnt ≢ 0
      → d.io_byte_cnt % 32 ≡ i
      → i + length xs ≤ 31
      → d.io_byte_cnt + length xs ≤ 512
      → Filled d i xs (writes xs d)
  unfolding writes copy_bytes
  fills [] d i ok begun at fit small = (refl, refl, ok, omega arith)
  fills (x ∷ xs) d i ok begun at fit small =
      let e = given d x in
      let step = inside e e (later_seek e begun) ok refl (λ z. omega arith) (omega arith) in
      let d' : DiskState S = record e {
        buffer_sd = set d.buffer_sd (d.io_byte_cnt % 32) x;
        io_byte_cnt = d.io_byte_cnt + 1;
      } in
      let (storage, buffer, fine, count) =
        fills xs d' (i + 1) ok (λ z. omega arith) (omega arith) (omega arith) (omega arith) in
      let run = ap (writes xs) step in
      (
        ap (λ r. r.storage) run ∙ storage,
        ap (λ r. r.buffer_sd) run
            ∙ buffer
            ∙ ap (λ k. copy_bytes (set d.buffer_sd k x) (i + 1) xs) at,
        ap (λ r. r.disk_err) run ∙ fine,
        ap (λ r. r.io_byte_cnt) run ∙ count ∙ omega arith,
      )

  pub first_seek-keeps :
      (d : DiskState S)
      → ((first_seek d).io_byte_cnt ≡ d.io_byte_cnt)
        × ((first_seek d).buffer_sd ≡ d.buffer_sd)
        × ((first_seek d).io_data ≡ d.io_data)
  unfolding first_seek
  first_seek-keeps d = (ground arith, ground arith, ground arith)

  -- The state before the flush of a segment
  abbrev pub Full : DiskState S → List ℕ → ℕ → DiskState S → Type 0
  Full p seg count x =
      (x.storage ≡ p.storage) × (x.buffer_sd ≡ seg) × (x.disk_err ≡ 0) × (x.io_byte_cnt ≡ count)

  pub segment-Full :
      (d : DiskState S) (k b : ℕ) (mid : List ℕ) (z : ℕ)
      → k < 16
      → d.io_byte_cnt ≡ 32 * k
      → (first_seek (given d b)).disk_err ≡ 0
      → length d.buffer_sd ≡ 32
      → length mid ≡ 30
      → (x : DiskState S) × (writes (b ∷ (mid ++ (z ∷ []))) d
          ≡ record (flush_segment x) { io_byte_cnt = 32 * k + 32 })
        × Full (first_seek (given d b)) (b ∷ (mid ++ (z ∷ []))) (32 * k + 31) x
  unfolding writes copy_bytes
  segment-Full d k b mid z small count ok size l =
      let p = first_seek (given d b) in
      let (same, buffer, byte) = first_seek-keeps (given d b) in
      let first = inside (given d b) p refl ok same (λ e. omega arith) (omega arith) in
      let d1 : DiskState S = record p {
        buffer_sd = set p.buffer_sd (d.io_byte_cnt % 32) p.io_data;
        io_byte_cnt = d.io_byte_cnt + 1;
      } in
      let d2 = writes mid d1 in
      let (storage, buffer', fine, count') =
        fills mid d1 1 ok (λ e. omega arith) (omega arith) (omega arith) (omega arith) in
      let x : DiskState S = record d2 { buffer_sd = set d2.buffer_sd 31 z; io_data = z } in
      let at : d.io_byte_cnt % 32 ≡ 0 = omega arith in
      let last = at_end (given d2 z) fine (omega arith) (omega arith) in
      let number : d2.io_byte_cnt + 1 ≡ 32 * k + 32 = omega arith in
      let place : 31 ≡ 0 + length (b ∷ mid) = omega arith in
      let stored : set d2.buffer_sd 31 z ≡ b ∷ (mid ++ (z ∷ [])) =
        ap (λ y. set y 31 z) buffer'
        ∙ (λ i. set (copy_bytes (set (buffer i) (at i) (byte i)) 1 mid) (place i) z)
        ∙ copy_bytes-append d.buffer_sd (b ∷ mid) (z ∷ []) 0
        ∙ copy_bytes-whole d.buffer_sd (b ∷ (mid ++ (z ∷ [])))
            (omega (arith, length-append mid (z ∷ []))) in
      (
        x,
        ap (writes (mid ++ (z ∷ []))) first
            ∙ writes-append mid (z ∷ []) d1
            ∙ last
            ∙ ap {B = DiskState S} (λ n. record (flush_segment x) { io_byte_cnt = n }) number,
        (storage, stored, fine, omega arith),
      )
