-- ===== src/Ios/SectorWrite/Run.antt =====
-- WRITESECT over the 512 bytes of a sector.
use wi_fi_virt_disk.Base.{
  ℕ, zero, suc, ◌+◌, ◌*◌, ◌<◌, ◌≤◌, ◌≡◌, refl, ap, ◌∙◌, sym, subst, List, [], ◌∷◌, ◌++◌, none, some,
  append_assoc, arith, length, take, drop, take-append-drop, length-take, length-drop,
  length-append, leb, false,
}
use wi_fi_virt_disk.Ios.Disk.{Storage, DiskState, first_seek, flush_segment, no_operation}
use wi_fi_virt_disk.Ios.SectorWrite.{writes, writes-append, given, later_seek, segment-Full}

-- A list of 32 bytes: the first, the 30 between, the last
Split : List ℕ → Type 0
Split seg = (b : ℕ) × (mid : List ℕ) × (z : ℕ) × (seg ≡ b ∷ (mid ++ (z ∷ []))) × (length mid ≡ 30)

split_last :
    (x : ℕ) (xs : List ℕ) (n : ℕ)
    → length xs ≡ n
    → (mid : List ℕ) × (z : ℕ) × (x ∷ xs ≡ mid ++ (z ∷ [])) × (length mid ≡ n)
split_last x [] n l = ([], x, refl, l)
split_last x (y ∷ ys) n l =
    let (mid, z, e, k) = split_last y ys (length ys) refl in
    (x ∷ mid, z, ap (λ r. x ∷ r) e, omega arith)

split : (seg : List ℕ) → length seg ≡ 32 → Split seg
unfolding Split
split [] l = absurd (omega arith)
split (b ∷ []) l = absurd (omega arith)
split (b ∷ (y ∷ ys)) l =
    let (mid, z, e, k) = split_last y ys (length ys) refl in
    (b, mid, z, ap (λ r. b ∷ r) e, omega arith)

module _ {S : Storage} where
  flush_going :
      (x : DiskState S) (after : S.State)
      → S.write_sd x.storage (some x.buffer_sd) ≡ (after, 0, 32)
      → x.io_byte_cnt < 511
      → flush_segment x ≡ record x { storage = after; disk_err = 0 }
  unfolding flush_segment
  flush_going x after sent small =
      let going : leb 511 x.io_byte_cnt ≡ false = ground arith in rw (sent, going) refl

  flush_last :
      (x : DiskState S) (after ended : S.State) (n : ℕ)
      → S.write_sd x.storage (some x.buffer_sd) ≡ (after, 0, 32)
      → S.write_sd after none ≡ (ended, 0, n)
      → x.io_byte_cnt ≡ 511
      → flush_segment x ≡ record x { storage = ended; disk_err = 0; io_opcode = no_operation }
  unfolding flush_segment
  flush_last x after ended n sent end count = rw (sent, count, end) refl

  -- `P` holds of the storage with the bytes that have been written, and `Q` when the write has ended.
  module _ (P Q : List ℕ → S.State → Type 0)
      (feed : (done seg : List ℕ) (s : S.State)
        → length done + 32 ≤ 512
        → length seg ≡ 32
        → P done s
        → (after : S.State) × (S.write_sd s (some seg) ≡ (after, 0, 32)) × P (done ++ seg) after)
      (finish : (done : List ℕ) (s : S.State)
        → length done ≡ 512
        → P done s
        → (ended : S.State) × (n : ℕ) × (S.write_sd s none ≡ (ended, 0, n)) × Q done ended) where
    -- The state behind the sector
    abbrev pub Written : List ℕ → DiskState S → Type 0
    Written bytes d =
        (d.disk_err ≡ 0) × (d.io_byte_cnt ≡ 512) × (d.io_opcode ≡ no_operation) × Q bytes d.storage

    -- what holds before a segment, behind `done`
    abbrev Before : List ℕ → ℕ → DiskState S → Type 0
    Before done k d =
        (d.io_byte_cnt ≡ 32 * k)
        × (length d.buffer_sd ≡ 32)
        × (length done ≡ 32 * k)
        × ((b : ℕ)
            → ((first_seek (given d b)).disk_err ≡ 0) × P done (first_seek (given d b)).storage)

    segment_going :
        (done seg : List ℕ) (k : ℕ) (d : DiskState S)
        → k < 15
        → length seg ≡ 32
        → Before done k d
        → Before (done ++ seg) (suc k) (writes seg d)
    unfolding Split
    segment_going done seg k d small l (count, size, before, ready) =
        let (b, mid, z, parts, m) = split seg l in
        let (ok, here) = ready b in
        let (x, run, (storage, buffer, fine, at)) =
          segment-Full d k b mid z (omega arith) count ok size m in
        let (after, sent, there) =
          feed done seg (first_seek (given d b)).storage (omega arith) l here in
        let sent' = (λ i. S.write_sd (storage i) (some ((buffer ∙ sym parts) i))) ∙ sent in
        let flushed = flush_going x after sent' (omega arith) in
        let e : DiskState S = record x {
          storage = after;
          disk_err = 0;
          io_byte_cnt = 32 * k + 32;
        } in
        let end : writes seg d ≡ e =
          ap (λ s. writes s d) parts
          ∙ run
          ∙ ap {B = DiskState S} (λ y. record y { io_byte_cnt = 32 * k + 32 }) flushed in
        let seg_size : length x.buffer_sd ≡ 32 = ap length (buffer ∙ sym parts) ∙ l in
        subst (Before (done ++ seg) (suc k)) (sym end) (
          omega arith,
          seg_size,
          omega (arith, length-append done seg),
          λ c.
              let still = sym (later_seek (given e c) (λ q. omega arith)) in
              (
                subst (λ y. y.disk_err ≡ 0) still refl,
                subst (λ y. P (done ++ seg) y.storage) still there,
              ),
        )

    segment_last :
        (done seg : List ℕ) (d : DiskState S)
        → length seg ≡ 32
        → Before done 15 d
        → Written (done ++ seg) (writes seg d)
    unfolding Split
    segment_last done seg d l (count, size, before, ready) =
        let (b, mid, z, parts, m) = split seg l in
        let (ok, here) = ready b in
        let (x, run, (storage, buffer, fine, at)) =
          segment-Full d 15 b mid z (omega arith) count ok size m in
        let (after, sent, there) =
          feed done seg (first_seek (given d b)).storage (omega arith) l here in
        let (ended, n, end, over) =
          finish (done ++ seg) after (omega (arith, length-append done seg)) there in
        let sent' = (λ i. S.write_sd (storage i) (some ((buffer ∙ sym parts) i))) ∙ sent in
        let flushed = flush_last x after ended n sent' end at in
        let all =
          ap (λ s. writes s d) parts
          ∙ run
          ∙ ap {B = DiskState S} (λ y. record y { io_byte_cnt = 32 * 15 + 32 }) flushed in
        subst (Written (done ++ seg)) (sym all) (refl, refl, refl, over)

    segments :
        (n k : ℕ) (done rest : List ℕ) (d : DiskState S)
        → n + k ≡ 15
        → length rest ≡ 32 * n + 32
        → Before done k d
        → Written (done ++ rest) (writes rest d)
    segments zero k done rest d sum l ready =
        let last : k ≡ 15 = omega arith in
        segment_last done rest d (omega arith) (subst (λ j. Before done j d) last ready)
    segments (suc n) k done rest d sum l ready =
        let seg = take 32 rest in
        let size : length seg ≡ 32 = omega (arith, length-take 32 rest) in
        let first = segment_going done seg k d (omega arith) size ready in
        let after =
          segments n (suc k) (done ++ seg) (drop 32 rest) (writes seg d) (omega arith)
            (omega (arith, length-drop 32 rest)) first in
        let whole = take-append-drop 32 rest in
        subst (λ r. Written (done ++ r) (writes r d)) whole
          (subst (Written (done ++ (seg ++ drop 32 rest)))
            (sym (writes-append seg (drop 32 rest) d))
            (subst (λ r. Written r (writes (drop 32 rest) (writes seg d)))
              (append_assoc done seg (drop 32 rest)) after))

    -- The 512 calls of WRITESECT write 512 bytes in order, if the seek before the first one is good,
    -- the storage takes the 16 segments, and the write ends well. There is no error, and the opcode
    -- is done.
    pub sector_bytes :
        (bytes : List ℕ) (d : DiskState S)
        → length bytes ≡ 512
        → d.io_byte_cnt ≡ 0
        → length d.buffer_sd ≡ 32
        → ((b : ℕ)
            → ((first_seek (given d b)).disk_err ≡ 0) × P [] (first_seek (given d b)).storage)
        → Written bytes (writes bytes d)
    sector_bytes bytes d l count size ready =
        segments 15 0 [] bytes d refl l (count, size, refl, ready)
