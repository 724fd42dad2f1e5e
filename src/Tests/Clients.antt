-- ===== src/Tests/Clients.antt =====
-- The theorems on the client and on the frames of the IOS, at a client after its start.
use wi_fi_virt_disk.Base.{ℕ, zero, suc, ◌≢◌, refl, List, [], ◌∷◌, arith, replicate}
use wi_fi_virt_disk.Packet.{Command}
use wi_fi_virt_disk.Hspi.Words.{Bytes}
use wi_fi_virt_disk.Client.Read.{read_sum}
use wi_fi_virt_disk.Client.Process.{dispatch}
use wi_fi_virt_disk.Client.Reject.{Rejected, dispatch-Rejected}
use wi_fi_virt_disk.Tests.Fixtures.{client}

-- VD_CMD_RD_FILE with a checksum of zero
abbrev bad_frame : List ℕ
bad_frame = 3 ∷ 0 ∷ 16 ∷ 0 ∷ replicate 28 0

bad_sum : read_sum bad_frame ≢ 0
bad_sum e = omega arith

dispatch-Rejected_example : Rejected client (dispatch client 3 bad_frame)
dispatch-Rejected_example = dispatch-Rejected client 3 Command.rd_file bad_frame refl bad_sum

pair-Bytes : Bytes (200 ∷ 100 ∷ [])
pair-Bytes zero = omega arith
pair-Bytes (suc zero) = omega arith
pair-Bytes (suc (suc i)) = omega arith
