-- ===== src/Board/Open.antt =====
-- `vd_open` with the client at the other end of the wire and the server behind it.
use wi_fi_virt_disk.Base.{
  ℕ, suc, zero, ◌+◌, ◌-◌, ◌≤◌, ◌≡◌, refl, ap, ◌∙◌, sym, subst, Bool, Option, List, [], ◌∷◌, ◌++◌,
  none, some, arith, length, length-append, length-take, length-replicate, take, drop, replicate,
  take-append_ge, c_string, true, false,
}
use wi_fi_virt_disk.Packet.{Packet, code, Command, IsPacket, name_of}
use wi_fi_virt_disk.Packet.Name.{IsTerminated, name_of-c_string}
use wi_fi_virt_disk.Packet.VdStatus
use wi_fi_virt_disk.Spi.{seal_byte}
use wi_fi_virt_disk.Client.State.{TcpLink, Client, exchange, spi_on_data, show_status, status_reset}
use wi_fi_virt_disk.Client.Control.{byte_at, select_sum, select_file, handle_sel_file}
use wi_fi_virt_disk.Server.Device.{LibDsk}
use wi_fi_virt_disk.Server.State.{Config, Server, emu_index, is_emulated, replied}
use wi_fi_virt_disk.Server.Stream.{lookup, open_file, close, clear, seekg, seekp, tellg}
use wi_fi_virt_disk.Server.Select.{sel_file, select_plain}
use wi_fi_virt_disk.Server.Process.{process_cmd}
use wi_fi_virt_disk.Server.Refine.{Serves}
use wi_fi_virt_disk.Server.Failures.{select_found}
use wi_fi_virt_disk.Ios.Link.{SpiLink, Master, command, fr_ok}
use wi_fi_virt_disk.Ios.Control.{open_frame, open_loop, vd_open}
use wi_fi_virt_disk.Board.Wiring.{spi_buffer, spi_link, tcp_link}
use wi_fi_virt_disk.Board.OpenFrame.{IsName, buffer_lem, open_frame_accepted}
use wi_fi_virt_disk.Board.Round.{served, command-served, served-handle}
use wi_fi_virt_disk.Board.Network.{exchange-reply}
use wi_fi_virt_disk.Board.Seek.{Selected}

name-IsTerminated : (name rest : List ℕ) → IsName name → IsTerminated (name ++ (0 ∷ rest))
name-IsTerminated [] rest v = tt
name-IsTerminated (zero ∷ name) rest v = absurd (v.0 refl)
name-IsTerminated (suc x ∷ name) rest v = name-IsTerminated name rest v.1

-- The name field that the client cuts out of the frame
abbrev pub name_field : List ℕ → List ℕ
name_field name = take 13 (drop 1 (spi_buffer (open_frame name)))

name_field-sizes :
    (name : List ℕ)
    → IsName name
    → length name ≤ 12
    → (length (name_field name) ≡ 13) × IsTerminated (name_field name)
name_field-sizes name v short =
    let zeros : List ℕ = take (31 - (length name + 2)) (replicate 32 0) in
    let behind : List ℕ = seal_byte (2 ∷ name) ∷ zeros in
    let frame : name_field name ≡ take 13 (name ++ (0 ∷ behind)) =
      ap (λ b. take 13 (drop 1 b)) (buffer_lem name short) in
    let count : 13 - length name ≡ suc (12 - length name) = omega arith in
    let parts : take 13 (name ++ (0 ∷ behind)) ≡ name ++ (0 ∷ take (12 - length name) behind) =
      take-append_ge 13 name (0 ∷ behind) (omega arith)
      ∙ ap (λ k. name ++ take k (0 ∷ behind)) count in
    let size : length (take 13 (name ++ (0 ∷ behind))) ≡ 13 = omega (
      arith,
      length-take 13 (name ++ (0 ∷ behind)),
      length-append name (0 ∷ behind),
      length-take {A = ℕ} (31 - (length name + 2)) (replicate 32 0),
      length-replicate {A = ℕ} 32 0,
    ) in
    (ap length frame ∙ size, subst IsTerminated (sym (frame ∙ parts)) (name-IsTerminated name _ v))

abbrev pub select_packet : Packet → List ℕ → Packet
select_packet h field = record h { cmd = code Command.sel_file; filename = field }

-- A select frame that is accepted and answered
select-answered :
    {L : TcpLink} (c : Client L) (buf : List ℕ) (net' : L.Net) (p : Packet)
    → select_sum buf ≡ 0
    → exchange L c.net (select_packet c.packet (take 13 (drop 1 buf))) ≡ (net', some p)
    → handle_sel_file c buf
      ≡ show_status
          (record c {
            vd_data = record (c.vd_data) {
              filename = take 13 (drop 1 buf);
              file_pos = 0;
              data_len = 0;
            };
            packet = p;
            net = net';
          })
          status_reset
unfolding handle_sel_file select_file
select-answered c buf net' p sum answer = rw (sum, answer) refl

-- A first command that is accepted ends the loop of `vd_open`.
open-accepted :
    {S : SpiLink} (name : List ℕ) (m m' : Master S)
    → command m (open_frame name) ≡ (m', 0)
    → m'.vd_status.cmd_status ≡ 0
    → vd_open name m ≡ (m', fr_ok)
unfolding vd_open open_loop
open-accepted name m m' sent ok = rw (sent, ok) refl

open_frame-command : (name : List ℕ) → byte_at (spi_buffer (open_frame name)) 0 ≡ 2
unfolding spi_buffer open_frame
open_frame-command name = refl

not_emulated :
    (g : Config) (name : List ℕ)
    → emu_index g.disk_emu_filename name ≡ none
    → is_emulated g name ≡ false
unfolding is_emulated
not_emulated g name e =
    ap {A = Option ℕ} (λ o. elim o as (λ _. Bool) [ none ↦ false | some _ ↦ true ]) e

module _ {D : LibDsk} (g : Config) (name image : List ℕ) (s : Server D) (h : Packet)
    (field : List ℕ) (ends : IsTerminated field) (named : c_string field ≡ name)
    (plain : emu_index g.disk_emu_filename name ≡ none)
    (there : lookup (g.file_path ++ name) s.files ≡ some image) where
  abbrev pub chosen_server : Server D
  chosen_server = (process_cmd g s (select_packet h field)).0

  select-name : name_of (select_packet h field) ≡ name
  select-name = name_of-c_string (select_packet h field) ends ∙ named

  select-kept :
      (p : Packet)
      → emu_index g.disk_emu_filename (name_of p) ≡ none
      → lookup (g.file_path ++ name_of p) s.files ≡ some image
      → ((sel_file g s p).0.files ≡ s.files)
        × ((sel_file g s p).1 ≡ record p { status = VdStatus.ok })
  unfolding sel_file select_plain open_file close clear seekg seekp tellg
  select-kept p e found = (ground arith, ground arith)

  -- The reply to a selection, and the server behind it
  pub select-Serves :
      let o = process_cmd g s (select_packet h field) in
      (o.1 ≡ record (select_packet h field) { status = VdStatus.ok })
      × (o.2 ≡ replied)
      × Serves g name (g.file_path ++ name) image chosen_server
  unfolding process_cmd
  select-Serves =
      let p = select_packet h field in
      let e = ap (emu_index g.disk_emu_filename) select-name ∙ plain in
      let found = ap (λ n. lookup (g.file_path ++ n) s.files) select-name ∙ there in
      let (_, reply, file, _, stream) = select_found g s p image e found in
      let (files, packet) = select-kept p e found in
      (
        packet,
        reply,
        record {
          named = file ∙ select-name;
          plain = not_emulated g name plain;
          opened = ap (λ x. x.is_open) stream;
          at_path = ap (λ x. x.path) stream ∙ ap (λ n. g.file_path ++ n) select-name;
          found = ap (lookup (g.file_path ++ name)) files ∙ there;
        },
      )

module _ {D : LibDsk} (g : Config) (wifi : ℕ) (name image : List ℕ) (s : Server D)
    (m : Master (spi_link (tcp_link D g) wifi)) (text : IsName name) (short : length name ≤ 12)
    (plain : emu_index g.disk_emu_filename name ≡ none)
    (there : lookup (g.file_path ++ name) s.files ≡ some image) (quiet : m.wire.net ≡ (s, []))
    (packet_fits : IsPacket m.wire.packet) where
  abbrev field : List ℕ
  field = name_field name

  named : c_string field ≡ name
  named = (open_frame_accepted name text short).1

  ends : IsTerminated field
  ends = (name_field-sizes name text short).1

  abbrev request : Packet
  request = select_packet m.wire.packet field

  request-IsPacket : IsPacket request
  request-IsPacket = record {
    name_13 = (name_field-sizes name text short).0;
    offset_32 = packet_fits.offset_32;
    track_16 = packet_fits.track_16;
    payload_512 = packet_fits.payload_512;
    len_16 = packet_fits.len_16;
  }

  abbrev reply : Packet
  reply = record request { status = VdStatus.ok }

  reply-IsPacket : IsPacket reply
  reply-IsPacket = record {
    name_13 = request-IsPacket.name_13;
    offset_32 = packet_fits.offset_32;
    track_16 = packet_fits.track_16;
    payload_512 = packet_fits.payload_512;
    len_16 = packet_fits.len_16;
  }

  abbrev server : Server D
  server = chosen_server g name image s m.wire.packet field ends named plain there

  exchange-select : exchange (tcp_link D g) m.wire.net request ≡ ((server, []), some reply)
  exchange-select =
      let (packet, replied, _) =
        select-Serves g name image s m.wire.packet field ends named plain there in
      ap (λ n. exchange (tcp_link D g) n request) quiet
      ∙ exchange-reply D g s request request-IsPacket replied
          (subst IsPacket (sym packet) reply-IsPacket)
      ∙ λ i. ((server, []), some (packet i))

  -- The client behind the selection
  abbrev chosen : Client (tcp_link D g)
  chosen = record (m.wire) {
    packet = reply;
    net = (server, []);
    vd_data = record (m.wire.vd_data) { filename = field; file_pos = 0; data_len = 0 };
    vd_status = status_reset;
    spi_status = status_reset;
    spi_data_buf = spi_buffer (open_frame name);
    spi_data_rcvd = false;
  }

  served-chosen : served wifi m (open_frame name) ≡ chosen
  unfolding spi_on_data
  served-chosen =
      let buf = spi_buffer (open_frame name) in
      let sum = (open_frame_accepted name text short).0 in
      let idle : Client (tcp_link D g) → Client (tcp_link D g) =
        λ c. record c { spi_data_rcvd = false } in
      served-handle wifi m (open_frame name) Command.sel_file (open_frame-command name)
      ∙ ap idle
          (select-answered (spi_on_data m.wire buf) buf (server, []) reply sum exchange-select)

  open-chosen : vd_open name m ≡ (record { wire = chosen; vd_status = status_reset }, fr_ok)
  open-chosen =
      let shown = ap (λ c. c.spi_status.status) served-chosen in
      open-accepted name m (record { wire = chosen; vd_status = status_reset })
        (command-served wifi m (open_frame name) (λ e. omega (arith, shown, e)) ∙ λ i. (
          record { wire = served-chosen i; vd_status = (served-chosen i).spi_status },
          (served-chosen i).spi_status.status,
        ))
        refl

  chosen-Selected : Selected g name server chosen
  chosen-Selected = record {
    quiet = refl;
    packet_fits = reply-IsPacket;
    name_13 = request-IsPacket.name_13;
    ends = ends;
    named = named;
  }

  -- `vd_open` of a name of up to 12 characters that is no emulated disk and has a file at the server,
  -- with no packet under way and a packet of the client with the sizes of its C types: it returns
  -- FR_OK, the server has the file open, the client has the disk selected, and its buffer is empty
  -- and as large as it was.
  pub file_opened :
      let (after, result) = vd_open name m in
      (result ≡ fr_ok)
      × (after.wire.vd_data.data_len ≡ 0)
      × (length after.wire.vd_data.buffer ≡ length m.wire.vd_data.buffer)
      × (s' : Server D) × Serves g name (g.file_path ++ name) image s'
      × Selected g name s' after.wire
  file_opened =
      let e = open-chosen in
      let (_, _, serves) =
        select-Serves g name image s m.wire.packet field ends named plain there in
      (
        ap (λ r. r.1) e,
        ap (λ r. r.0.wire.vd_data.data_len) e,
        ap (λ r. length r.0.wire.vd_data.buffer) e,
        server,
        serves,
        subst (λ r. Selected g name server r.0.wire) (sym e) chosen-Selected,
      )
