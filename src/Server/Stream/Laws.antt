-- ===== src/Server/Stream/Laws.antt =====
-- The files by their paths, and a stream that is sought and then read or written.
use wi_fi_virt_disk.Base.{
  ℕ, ◌+◌, ◌≡◌, ◌≢◌, refl, true, false, List, [], ◌∷◌, some, arith, str_eq→eq, lt→ltb, length,
  length-take, length-drop, ◌<◌, take, drop,
}
use wi_fi_virt_disk.Server.Stream.{
  Files, lookup, update, Stream, clear, seekg, seekp, content, read, write, overwrite,
}

pub lookup-update :
    (path new old : List ℕ) (files : Files)
    → lookup path files ≡ some old
    → lookup path (update path new files) ≡ some new
unfolding lookup update
lookup-update path new old [] e = cc
lookup-update path new old ((p, b) ∷ files) e = ground (arith, lookup-update path new old files)

-- A write leaves the other files alone.
pub lookup-update_ne :
    (path other new : List ℕ) (files : Files)
    → other ≢ path
    → lookup other (update path new files) ≡ lookup other files
unfolding lookup update
lookup-update_ne path other new [] ne = refl
lookup-update_ne path other new ((p, b) ∷ files) ne =
    ground (arith, lookup-update_ne path other new files ne, str_eq→eq p path, str_eq→eq p other)

-- The stream after the `clear`, `seekg` and `seekp` of the server
abbrev pub sought : Stream → ℕ → Stream
sought s offset = seekp (seekg (clear s) offset) offset

-- An open stream that is sought is good again and stands at the offset.
pub sought_lem :
    (s : Stream) (offset : ℕ)
    → s.is_open ≡ true
    → sought s offset
      ≡ record { is_open = true; path = s.path; at = offset; at_eof = false; bad = false }
unfolding clear seekg seekp
sought_lem s offset h = ground arith

-- A good stream at `at` gives the bytes there, and stands behind them.
pub read-sought :
    (path image : List ℕ) (at n : ℕ) (files : Files)
    → lookup path files ≡ some image
    → let s : Stream = record {
      is_open = true;
      path = path;
      at = at;
      at_eof = false;
      bad = false;
    } in
      let got = take n (drop at image) in
      ((read s files n).1 ≡ got)
      × ((read s files n).0.is_open ≡ true)
      × ((read s files n).0.path ≡ path)
unfolding read content
read-sought path image at n files e = ground arith

pub write-sought :
    (path image : List ℕ) (at : ℕ) (bytes : List ℕ) (files : Files)
    → lookup path files ≡ some image
    → let s : Stream = record {
      is_open = true;
      path = path;
      at = at;
      at_eof = false;
      bad = false;
    } in
      write s files bytes
      ≡ (record s { at = at + length bytes }, update path (overwrite image at bytes) files)
unfolding write content
write-sought path image at bytes files e = ground arith

pub write-lookup_ne :
    (s : Stream) (files : Files) (bytes other : List ℕ)
    → other ≢ s.path
    → lookup other (write s files bytes).1 ≡ lookup other files
unfolding write
write-lookup_ne s files bytes other ne =
    ground (arith, lookup-update_ne s.path other (overwrite (content files s) s.at bytes) files ne)

-- A read that finds too few bytes leaves the stream failed, with the same file.
pub read_short :
    (s : Stream) (files : Files) (n : ℕ)
    → 0 < n
    → length (content files s) < s.at + n
    → let s' = (read s files n).0 in (s'.bad ≡ true) × (s'.is_open ≡ s.is_open) × (s'.path ≡ s.path)
unfolding read
read_short s files n some_bytes short =
    let got = take n (drop s.at (content files s)) in
    let size : length got < n =
      omega
        (arith, length-take n (drop s.at (content files s)), length-drop s.at (content files s)) in
    ground (arith, lt→ltb (length got) n size)

-- A failed stream gives nothing and takes nothing.
pub failed_transfers :
    (s : Stream) (files : Files) (n : ℕ) (bytes : List ℕ)
    → s.bad ≡ true
    → ((read s files n).1 ≡ []) × ((write s files bytes).1 ≡ files)
unfolding read write
failed_transfers s files n bytes b = ground arith
