-- ===== src/Memdump/Program.antt =====
-- `modify_mem_dump` and `main`. `strtoul`, `open` and `mmap` come from the C library: the dump
-- that `open` finds and the address that `mmap` returns are arguments.
use resume_from_edk2_tooling.Base.{
  ℕ, ◌+◌, Option, none, some, List, bit_and, ltb, if◌then◌else◌, length, get_elem?,
}
use resume_from_edk2_tooling.Memdump.Image.{Image, Cmd, ◌>>=◌, load, store}
use resume_from_edk2_tooling.Memdump.Paging.{not64, shl64}
use resume_from_edk2_tooling.Memdump.Clear.{clear_page_nx_flag}

abbrev pub gdt_phys_addr : ℕ
gdt_phys_addr = 0x3d00b000

abbrev pub tss_offset : ℕ
tss_offset = 0x40

-- `*tss_desc &= ~(1UL << 41)`
unfoldable pub clear_tss_busy : Cmd (Unit {0})
clear_tss_busy = do
  tss_desc ← load (gdt_phys_addr + tss_offset)
  store (gdt_phys_addr + tss_offset) (bit_and tss_desc (not64 (shl64 1 41)))

-- What is done to the mapped dump; the status of `ClearPageNXFlag` is only printed.
unfoldable pub modify_image : (physmem cr3 va : ℕ) → Cmd (Unit {0})
modify_image physmem cr3 va = do rc ← clear_page_nx_flag physmem cr3 va; clear_tss_busy

-- How the process ends, with what the dump file then holds where the run completes.
pub data Outcome : Type 0 where
  exited : ℕ → Option Image → Outcome
  crashed : Outcome

-- `dump` is `none` where `open` fails.
unfoldable pub modify_mem_dump : (dump : Option Image) (physmem cr3 va : ℕ) → Outcome
modify_mem_dump none physmem cr3 va = exited 1 none
modify_mem_dump (some m) physmem cr3 va = elim (modify_image physmem cr3 va m) [
  | none ↦ crashed
  | some (u, m') ↦ exited 0 (some m')
]

-- `argv[0]` is the program. `strtoul` of the null pointer behind the last argument crashes.
module _ {Arg : Type 0} (strtoul : Arg → ℕ) (fopen : Arg → Option Image) (physmem : ℕ) where
  unfoldable pub run_arguments : Option Arg → Option Arg → Option Arg → Outcome
  run_arguments (some filename) (some cr3) (some va) =
      modify_mem_dump (fopen filename) physmem (strtoul cr3) (strtoul va)
  run_arguments _ _ _ = crashed

  unfoldable pub main : List Arg → Outcome
  main argv =
      if ltb (length argv) 2
      then exited 1 none
      else run_arguments (get_elem? argv 1) (get_elem? argv 2) (get_elem? argv 3)
