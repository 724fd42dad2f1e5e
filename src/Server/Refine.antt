-- ===== src/Server/Refine.antt =====
-- A client that seeks before each transfer finds in a selected file the image that it wrote.
use wi_fi_virt_disk.Base.{
  ℕ, ◌≡◌, refl, ap, ◌∙◌, true, false, List, [], ◌∷◌, ◌++◌, some, arith, str_eq_refl, length,
  c_string, pos, negsuc,
}
use wi_fi_virt_disk.Packet.{Packet, code, Command}
use wi_fi_virt_disk.Packet.Name.{IsTerminated, name_of-c_string}
use wi_fi_virt_disk.Packet.VdStatus
use wi_fi_virt_disk.Server.Stream.{lookup, tellg, overwrite}
use wi_fi_virt_disk.Server.Stream.Laws.{sought_lem, read-sought, write-sought, lookup-update}
use wi_fi_virt_disk.Server.Device.{LibDsk}
use wi_fi_virt_disk.Server.State.{Config, Server, Outcome, is_emulated, replied}
use wi_fi_virt_disk.Server.Select.{seek_file, seek_plain}
use wi_fi_virt_disk.Server.Transfer.{rd_file, wr_file, read_plain, write_plain}
use wi_fi_virt_disk.Server.Process.{process_cmd}
use wi_fi_virt_disk.Server.Image
use wi_fi_virt_disk.Server.Image.{
  Request, read_at, write_at, Answer, sought, got, stored, block, zero_padded,
}

-- The three packets, built on any packet `h` of the client
abbrev pub seek_packet : Packet → ℕ → Packet
seek_packet h offset = record h { cmd = code Command.seek_file; file_offset = offset }

abbrev pub read_packet : Packet → Packet
read_packet h = record h { cmd = code Command.rd_file }

abbrev pub write_packet : Packet → List ℕ → Packet
write_packet h bytes = record h { cmd = code Command.wr_file; payload = bytes }

-- What the client sees of an outcome: nothing at all where there is no reply
abbrev pub seen : {D : LibDsk} → (Packet → Answer) → Outcome D → List Answer
seen f (s, p, pos n) = f p ∷ []
seen f (s, p, negsuc n) = []

module _ {D : LibDsk} (g : Config) (h : Packet) where
  -- Each request as two packets
  unfoldable pub session : Server D → List Request → Server D × List Answer
  session s [] = (s, [])
  session s (read_at offset ∷ rs) =
      let o = process_cmd g s (seek_packet h offset) in
      let o' = process_cmd g o.0 (read_packet h) in
      let (s', answers) = session o'.0 rs in
      (
        s',
        seen (λ p. sought p.status) o
            ++ (seen (λ p. got p.status p.payload p.data_len) o' ++ answers),
      )
  session s (write_at offset bytes ∷ rs) =
      let o = process_cmd g s (seek_packet h offset) in
      let o' = process_cmd g o.0 (write_packet h bytes) in
      let (s', answers) = session o'.0 rs in
      (s', seen (λ p. sought p.status) o ++ (seen (λ _. stored) o' ++ answers))

-- The server has the file `path` open under the name given, and `image` is what it holds.
pub record Serves {D : LibDsk} (g : Config) (name path image : List ℕ) (s : Server D) : Type 0 where
  pub named : s.filename ≡ name
  pub plain : is_emulated g name ≡ false
  pub opened : s.file_stream.is_open ≡ true
  pub at_path : s.file_stream.path ≡ path
  pub found : lookup path s.files ≡ some image

-- The server after a seek to `offset`
abbrev pub at_offset : {D : LibDsk} → List ℕ → Server D → ℕ → Server D
at_offset path s offset = record s {
  file_stream = record { is_open = true; path = path; at = offset; at_eof = false; bad = false };
  file_pos = pos offset;
}

seen-replied :
    {D : LibDsk} (f : Packet → Answer) (o : Outcome D) → o.2 ≡ replied → seen f o ≡ f o.1 ∷ []
seen-replied f (s, p, pos n) e = refl
seen-replied f (s, p, negsuc n) e = cc

module _ {D : LibDsk} (g : Config) (h : Packet) (name path image : List ℕ)
    (t : IsTerminated h.filename) (e : c_string h.filename ≡ name) where
  -- A seek leaves all but the stream and its position as it was.
  pub seek-Serves :
      (s : Server D) (offset : ℕ)
      → Serves g name path image s
      → process_cmd g s (seek_packet h offset)
        ≡ (at_offset path s offset, record (seek_packet h offset) { status = VdStatus.ok }, replied)
  unfolding process_cmd seek_file seek_plain tellg
  seek-Serves s offset v = ground (
    arith,
    name_of-c_string (seek_packet h offset) t,
    str_eq_refl name,
    sought_lem s.file_stream offset v.opened,
  )

  -- A read right after the seek gives the block there.
  pub read-Serves :
      (s : Server D) (offset : ℕ)
      → Serves g name path image s
      → let o = process_cmd g (at_offset path s offset) (read_packet h) in
        (o.2 ≡ replied)
        × (o.1.status ≡ VdStatus.ok)
        × (o.1.payload ≡ zero_padded (block image offset))
        × (o.1.data_len ≡ length (block image offset))
        × Serves g name path image o.0
  unfolding process_cmd rd_file read_plain
  read-Serves s offset v = ground (
    arith,
    name_of-c_string (read_packet h) t,
    str_eq_refl name,
    read-sought path image offset 512 s.files v.found,
  )

  pub write-Serves :
      (s : Server D) (offset : ℕ) (bytes : List ℕ)
      → Serves g name path image s
      → let o = process_cmd g (at_offset path s offset) (write_packet h bytes) in
        (o.2 ≡ replied) × Serves g name path (overwrite image offset bytes) o.0
  unfolding process_cmd wr_file write_plain
  write-Serves s offset bytes v = ground (
    arith,
    name_of-c_string (write_packet h bytes) t,
    str_eq_refl name,
    write-sought path image offset bytes s.files v.found,
    lookup-update path (overwrite image offset bytes) image s.files v.found,
  )

-- No sequence of transfers, each behind a seek, tells a server that has the file of the packets'
-- name open from the bare image of its bytes: every packet is answered, with the status 0 for seeks
-- and reads, each read gives the block at its offset, filled up with zeros, and the number of bytes,
-- and at the end the file holds what the image holds. The name ends inside of its field.
pub session_refines :
    {D : LibDsk} (g : Config) (h : Packet) (name path image : List ℕ)
    → IsTerminated h.filename
    → c_string h.filename ≡ name
    → (rs : List Request) (s : Server D) → Serves g name path image s
    → let (s', answers) = session g h s rs in
      let (image', expected) = Image.run image rs in
      (answers ≡ expected) × Serves g name path image' s'
unfolding session Image.run
session_refines g h name path image t e [] s v = (refl, v)
session_refines g h name path image t e (read_at offset ∷ rs) s v =
    let r = read-Serves g h name path image t e s offset v in
    let rest =
      session_refines g h name path image t e rs
        (process_cmd g (at_offset path s offset) (read_packet h)).0 r.4 in
    let bytes = block image offset in
    let o = process_cmd g (at_offset path s offset) (read_packet h) in
    let answers = (session g h o.0 rs).1 in
    let read_answer =
      ap (λ xs. sought 0 ∷ xs ++ answers)
        (seen-replied (λ p. got p.status p.payload p.data_len) o r.0
          ∙ (λ i. got (r.1 i) (r.2 i) (r.3 i) ∷ [])) in
    rw (seek-Serves g h name path image t e s offset v) (
      read_answer ∙ ap (λ xs. sought 0 ∷ got 0 (zero_padded bytes) (length bytes) ∷ xs) rest.0,
      rest.1,
    )
session_refines g h name path image t e (write_at offset bytes ∷ rs) s v =
    let w = write-Serves g h name path image t e s offset bytes v in
    let rest =
      session_refines g h name path (overwrite image offset bytes) t e rs
        (process_cmd g (at_offset path s offset) (write_packet h bytes)).0 w.1 in
    let o = process_cmd g (at_offset path s offset) (write_packet h bytes) in
    rw (seek-Serves g h name path image t e s offset v) (
      ap (λ xs. sought 0 ∷ xs ++ (session g h o.0 rs).1) (seen-replied (λ _. stored) o w.0)
          ∙ ap (λ xs. sought 0 ∷ stored ∷ xs) rest.0,
      rest.1,
    )
