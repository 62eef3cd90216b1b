-- ===== src/Memdump/LargePage.antt =====
-- A page-table walk that ends in a 2 MB page: the program takes the page for a table.
use resume_from_edk2_tooling.Base.{ℕ, ◌+◌, ◌*◌, ◌/◌, ◌%◌, ◌^◌, ◌≤◌, ◌≡◌, arith, some}
use resume_from_edk2_tooling.Base.Int.{pos}
use resume_from_edk2_tooling.Memdump.Walk.{walk, large}
use resume_from_edk2_tooling.Memdump.Clear.{clear_page_nx_flag}
use resume_from_edk2_tooling.Memdump.Image.{Image, word, write}
use resume_from_edk2_tooling.Memdump.Fields.{pmd_page_vaddr_large}
use resume_from_edk2_tooling.Memdump.Refine.{IsMapped, target, walk-large, clear_page_nx_flag-Route}

-- On a dump mapped below the end of the address space and not at 0, whose walk of `va` ends in a
-- 2 MB page that lies in the mapping, `ClearPageNXFlag` returns 0 and clears the top bit of a word
-- inside that page, and changes nothing else.
pub clear_page_nx_flag-large :
    {physmem : ℕ} {m : Image} (at : IsMapped physmem m) (base va : ℕ) {frame : ℕ}
    → walk m base va ≡ some (large frame)
    → frame + 2 ^ 21 ≤ m.mapped
    → (a : ℕ) × (frame ≤ a)
      × (a + 8 ≤ frame + 2 ^ 21)
      × (clear_page_nx_flag physmem base va m ≡ some (pos 0, write m a (word m.byte a % 2 ^ 63)))
clear_page_nx_flag-large {m} at base va {frame} h fits =
    let (pgd, pud, pmd, r, s, e) = walk-large m base va h in
    let place : target pmd va ≡ frame + 8 * (va / 2 ^ 12 % 512) =
      omega (arith, pmd_page_vaddr_large pmd s, at.fits) in
    (
      target pmd va,
      omega (arith, place),
      omega (arith, place),
      clear_page_nx_flag-Route at base va r (omega (arith, place)),
    )
