-- ===== src/Memdump/Run.antt =====
-- A run of the dump editor from its command line.
use resume_from_edk2_tooling.Base.{
  ℕ, suc, ◌+◌, ◌*◌, ◌/◌, ◌%◌, ◌^◌, ◌≤◌, ◌<◌, ◌≡◌, refl, ap, ◌∙◌, ◌⊎◌, false, Option, some, List,
  ◌∷◌, arith, ltb,
}
use resume_from_edk2_tooling.Base.{length}
use resume_from_edk2_tooling.Memdump.Image.{Image, IsBytes, word}
use resume_from_edk2_tooling.Memdump.Walk.{walk, small}
use resume_from_edk2_tooling.Memdump.Refine.{IsMapped}
use resume_from_edk2_tooling.Memdump.Bounds.{modify_mem_dump-exited_by}
use resume_from_edk2_tooling.Memdump.Program.{main, run_arguments, modify_mem_dump, exited}
use resume_from_edk2_tooling.Memdump.Whole.{modify_image-walk, tss_at}

pub main-modify_mem_dump :
    {Arg : Type 0} (strtoul : Arg → ℕ) (fopen : Arg → Option Image) (physmem : ℕ)
    (program filename cr3 va : Arg) (rest : List Arg)
    → main strtoul fopen physmem (program ∷ filename ∷ cr3 ∷ va ∷ rest)
      ≡ modify_mem_dump (fopen filename) physmem (strtoul cr3) (strtoul va)
unfolding main run_arguments
main-modify_mem_dump strtoul fopen physmem program filename cr3 va rest =
    let enough : ltb (suc (suc (suc (suc (length rest))))) 2 ≡ false = ground arith in
    rw enough refl

-- Called with a file name, a page-table root and an address, on a dump of bytes that is mapped
-- below the end of the address space and not at 0, in which the walk of the address ends in the
-- entry of a 4 KB page, with this entry and the TSS descriptor apart and inside the mapping, the
-- program ends with 0. It has then cleared bit 63 of the entry and bit 41 of the descriptor, kept
-- their other bits, and changed no other byte of the dump.
pub main-walk :
    {Arg : Type 0} (strtoul : Arg → ℕ) (fopen : Arg → Option Image) {physmem : ℕ} {m : Image}
    (program filename cr3 va : Arg) (rest : List Arg) {slot : ℕ}
    → fopen filename ≡ some m
    → IsMapped physmem m
    → IsBytes m.byte
    → walk m (strtoul cr3) (strtoul va) ≡ some (small slot)
    → slot + 8 ≤ m.mapped
    → tss_at + 8 ≤ m.mapped
    → (slot + 8 ≤ tss_at) ⊎ (tss_at + 8 ≤ slot)
    → (m' : Image) × (main strtoul fopen physmem (program ∷ filename ∷ cr3 ∷ va ∷ rest)
        ≡ exited 0 (some m'))
      × (word m'.byte slot ≡ word m.byte slot % 2 ^ 63)
      × (word m'.byte tss_at + word m.byte tss_at / 2 ^ 41 % 2 * 2 ^ 41 ≡ word m.byte tss_at)
      × ((a : ℕ)
          → (a < slot) ⊎ (slot + 8 ≤ a)
          → (a < tss_at) ⊎ (tss_at + 8 ≤ a)
          → m'.byte a ≡ m.byte a)
main-walk strtoul fopen {physmem} {m} program filename cr3 va rest opened at b h fits tss apart =
    let (m', run, low, busy, others) =
      modify_image-walk at (strtoul cr3) (strtoul va) b h fits tss apart in
    (
      m',
      main-modify_mem_dump strtoul fopen physmem program filename cr3 va rest
          ∙ ap (λ o. modify_mem_dump o physmem (strtoul cr3) (strtoul va)) opened
          ∙ modify_mem_dump-exited_by physmem (strtoul cr3) (strtoul va) m run,
      low,
      busy,
      others,
    )
