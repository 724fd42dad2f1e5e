-- ===== src/Tests/Boots.antt =====
-- The theorems on the load of the boot program, at an SD card that fails until it is sought.
use wi_fi_virt_disk.Base.{
  ℕ, ◌+◌, ◌-◌, ◌*◌, ◌<◌, ◌≡◌, refl, sym, ap, ◌∙◌, Bool, true, false, List, ◌++◌, some, arith,
  length, take, drop, replicate, min, inr, take-all, length-take, length-drop, get_or,
}
use wi_fi_virt_disk.Ios.Sd.{PetitFs, sd, read_sd}
use wi_fi_virt_disk.Ios.Inject.{load_bytes}
use wi_fi_virt_disk.Ios.Inject.Cpu.{steps, fetch}
use wi_fi_virt_disk.Ios.Inject.Stored.{idle}
use wi_fi_virt_disk.Ios.Boot.{Boot, load_segment, load_segments, load_file}
use wi_fi_virt_disk.Ios.Boot.Card.{ReadsFile}
use wi_fi_virt_disk.Ios.Boot.Memory.{before_load, boot_in_memory, boot_misplaced}
use wi_fi_virt_disk.Tests.Masters.{good_slave, good}

abbrev program : List ℕ
program = replicate 40 7

-- Whether it fails, and the place in the file; a failed read has stored three bytes.
abbrev card : PetitFs
card = record {
  Fat = Bool × ℕ;
  pf_mount = λ fat. (fat, 0);
  pf_open = λ fat name. (fat, 0);
  pf_read = λ fat buff n.
      let bytes = take n (drop fat.1 program) in
      elim (fat.0) [
        | true ↦ (fat, 1, replicate 32 9, some 3)
        | false ↦ ((false, fat.1 + length bytes), 0, bytes, some (length bytes))
      ];
  pf_write = λ fat buff n. (fat, 1, some 0);
  pf_lseek = λ fat ofs. ((false, ofs), 0);
}

abbrev Pos : ℕ → Bool × ℕ → Type 0
Pos k fat = fat ≡ (false, k)

left : (n k : ℕ) → length (take n (drop k program)) ≡ min n (length program - k)
left n k = omega (arith, length-take n (drop k program), length-drop k program)

program-ReadsFile : ReadsFile card program Pos
program-ReadsFile = record {
  reads_ok = λ k fat buff n pos. ap (λ x. (card.pf_read x buff n).1) pos;
  reads_count = λ k fat buff n pos. ap (λ x. (card.pf_read x buff n).3) pos ∙ ap some (left n k);
  reads_bytes = λ k fat buff n pos.
      ap (λ x. take (min n (length program - k)) (card.pf_read x buff n).2) pos
      ∙ ap (λ j. take j (take n (drop k program))) (sym (left n k))
      ∙ take-all (length (take n (drop k program))) (take n (drop k program)) refl;
  reads_move = λ k fat buff n pos.
      ap (λ x. (card.pf_read x buff n).0) pos ∙ ap {B = Bool × ℕ} (λ j. (false, k + j)) (left n k);
}

abbrev start : Bool → Boot (sd good_slave card 10 0)
start failing = record {
  storage = record { virt_disk_flag = false; master = good; fat = (failing, 0); hung = false };
  buffer_sd = replicate 32 0;
  err_code_sd = 0;
  ram_steps = before_load 256;
}

boot_in_memory_example :
    (d : Boot (sd good_slave card 10 0)) × (load_file 2 1 (start false) ≡ some d)
    × (d.err_code_sd ≡ 0)
    × let z = steps d.ram_steps (idle 0 (λ a. 0) 0) in
      ((i : ℕ) → i < 40 → z.memory (256 + i) ≡ get_or program i 0)
      × (0 < 256 → (z.memory 0 ≡ 0xC3) × (z.memory 1 + 256 * z.memory 2 ≡ 256))
      × (z.safe ≡ true)
      × (z.cycle ≡ fetch)
boot_in_memory_example =
    boot_in_memory 10 0 program Pos program-ReadsFile 256 2 0 0 0 (λ a. 0) (start false) refl refl
      refl (omega arith) (omega arith) (inr (omega arith))

-- One segment of three other bytes, and an error
abbrev broken : Boot (sd good_slave card 10 0)
broken = record {
  storage = (start true).storage;
  buffer_sd = replicate 32 9;
  err_code_sd = 1;
  ram_steps = before_load 256 ++ load_bytes (replicate 3 9);
}

broken_load : load_segments 2 (start true) ≡ some broken
unfolding load_segments load_segment read_sd
broken_load = refl

boot_misplaced_example :
    (d : Boot (sd good_slave card 10 0)) × (load_file 2 2 (start true) ≡ some d)
    × (d.err_code_sd ≡ 0)
    × let z = steps d.ram_steps (idle 0 (λ a. 0) 0) in
      ((i : ℕ) → i < 3 → z.memory (256 + i) ≡ get_or (replicate 3 9) i 0)
      × ((i : ℕ) → i < 40 → z.memory (256 + (3 + i)) ≡ get_or program i 0)
boot_misplaced_example =
    boot_misplaced 10 0 program Pos program-ReadsFile 256 2 0 0 0 (λ a. 0) (start true) broken
      (replicate 3 9) refl broken_load (λ e. omega arith) refl refl refl (omega arith) (omega arith)
      (inr (omega arith))
