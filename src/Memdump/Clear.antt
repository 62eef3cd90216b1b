-- ===== src/Memdump/Clear.antt =====
-- `ClearPageNXFlag` and the pointer arithmetic under it. A pointer into the dump is its offset
-- from `physmem`, modulo 2^64; `entry_at` is `(T *)(physmem + base) + i` for an 8-byte `T`.
use resume_from_edk2_tooling.Base.{ℕ, ◌+◌, ◌*◌, ◌%◌, ◌^◌, bit_and, ◌==◌}
use resume_from_edk2_tooling.Base.Int.{ℤ, pos, negsuc}
use resume_from_edk2_tooling.Memdump.Image.{Cmd, pure, ◌>>=◌, ◌>>◌, return_if, load, store}
use resume_from_edk2_tooling.Memdump.Paging.{
  not64, page_nx, pgd_index, pud_index, pmd_index, pte_index, pgd_page_vaddr, pud_page_vaddr,
  pmd_page_vaddr, pgd_none, pud_none, pmd_none,
}

abbrev pub entry_at : ℕ → ℕ → ℕ
entry_at base i = (base + 8 * i) % 2 ^ 64

unfoldable pub pgd_offset_pgd : ℕ → ℕ → ℕ
pgd_offset_pgd pgd_base address = entry_at pgd_base (pgd_index address)

unfoldable pub pud_offset : ℕ → ℕ → ℕ
pud_offset pgd address = entry_at (pgd_page_vaddr pgd) (pud_index address)

unfoldable pub pmd_offset : ℕ → ℕ → ℕ
pmd_offset pud address = entry_at (pud_page_vaddr pud) (pmd_index address)

unfoldable pub pte_offset_kernel : ℕ → ℕ → ℕ
pte_offset_kernel pmd address = entry_at (pmd_page_vaddr pmd) (pte_index address)

-- The read-modify-write of the entry: `ptep->pte &= ~_PAGE_NX`.
unfoldable pub clear_nx : ℕ → Cmd ℤ
clear_nx ptep = do pte ← load ptep; store ptep (bit_and pte (not64 page_nx)); pure (pos 0)

-- `physmem` is the address at which the dump is mapped; only the null test reads it.
unfoldable pub clear_pte : ℕ → ℕ → Cmd ℤ
clear_pte physmem ptep = return_if ((physmem + ptep) % 2 ^ 64 == 0) (negsuc 3) (clear_nx ptep)

unfoldable pub clear_page_nx_flag : (physmem pgd_base va : ℕ) → Cmd ℤ
clear_page_nx_flag physmem pgd_base va = do
  pgd ← load (pgd_offset_pgd pgd_base va)
  return_if (pgd_none pgd) (negsuc 0) do
    pud ← load (pud_offset pgd va)
    return_if (pud_none pud) (negsuc 1) do
      pmd ← load (pmd_offset pud va)
      return_if (pmd_none pmd) (negsuc 2) (clear_pte physmem (pte_offset_kernel pmd va))
