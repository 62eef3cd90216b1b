-- ===== src/Memdump/Root.antt =====
-- The root of the tables: what CR3 holds beside the address, and what `main` makes of it.
use resume_from_edk2_tooling.Base.{
  ℕ, ◌+◌, ◌*◌, ◌/◌, ◌%◌, ◌^◌, ◌<◌, ◌≡◌, refl, sym, ap, ◌∙◌, Option, none, some, List, ◌∷◌, arith,
}
use resume_from_edk2_tooling.Base.Int.{ℤ}
use resume_from_edk2_tooling.Base.Bits.{bit_and_field}
use resume_from_edk2_tooling.Memdump.Image.{Image, Cmd, ◌>>=◌}
use resume_from_edk2_tooling.Memdump.Paging.{pgd_index, pud_index, pmd_index, pte_index}
use resume_from_edk2_tooling.Memdump.Fields.{
  pgd_index_lem, pud_index_lem, pmd_index_lem, pte_index_lem,
}
use resume_from_edk2_tooling.Memdump.Clear.{
  pgd_offset_pgd, pud_offset, pmd_offset, pte_offset_kernel, clear_page_nx_flag,
}
use resume_from_edk2_tooling.Memdump.Flags.{cr3_to_pgt_pa}
use resume_from_edk2_tooling.Memdump.Program.{
  Outcome, exited, crashed, clear_tss_busy, modify_image, modify_mem_dump, main,
}
use mathlib.Core.Path.{fun_ext}
use resume_from_edk2_tooling.Memdump.Run.{main-modify_mem_dump}

-- The mask of `cr3_to_pgt_pa` drops the context identifier.
cr3_to_pgt_pa_lem :
    (pa pcid : ℕ) → pa % 4096 ≡ 0 → pa < 2 ^ 52 → pcid < 4096 → cr3_to_pgt_pa (pa + pcid) ≡ pa
cr3_to_pgt_pa_lem pa pcid al reach low = omega (arith, bit_and_field 12 51 (pa + pcid))

pgd_index-shifted :
    (va k : ℕ) → va / 2 ^ 39 % 512 + k < 512 → pgd_index (va + k * 2 ^ 39) ≡ pgd_index va + k
pgd_index-shifted va k h = omega (arith, pgd_index_lem va, pgd_index_lem (va + k * 2 ^ 39))

pud_index-shifted : (va k : ℕ) → pud_index (va + k * 2 ^ 39) ≡ pud_index va
pud_index-shifted va k = omega (arith, pud_index_lem va, pud_index_lem (va + k * 2 ^ 39))

pmd_index-shifted : (va k : ℕ) → pmd_index (va + k * 2 ^ 39) ≡ pmd_index va
pmd_index-shifted va k = omega (arith, pmd_index_lem va, pmd_index_lem (va + k * 2 ^ 39))

pte_index-shifted : (va k : ℕ) → pte_index (va + k * 2 ^ 39) ≡ pte_index va
pte_index-shifted va k = omega (arith, pte_index_lem va, pte_index_lem (va + k * 2 ^ 39))

pgd_offset_pgd-shifted :
    (pa va k : ℕ)
    → va / 2 ^ 39 % 512 + k < 512
    → pgd_offset_pgd (pa + 8 * k) va ≡ pgd_offset_pgd pa (va + k * 2 ^ 39)
unfolding pgd_offset_pgd
pgd_offset_pgd-shifted pa va k h = omega (arith, pgd_index-shifted va k h)

pud_offset-shifted : (pgd va k : ℕ) → pud_offset pgd (va + k * 2 ^ 39) ≡ pud_offset pgd va
unfolding pud_offset
pud_offset-shifted pgd va k = omega (arith, pud_index-shifted va k)

pmd_offset-shifted : (pud va k : ℕ) → pmd_offset pud (va + k * 2 ^ 39) ≡ pmd_offset pud va
unfolding pmd_offset
pmd_offset-shifted pud va k = omega (arith, pmd_index-shifted va k)

pte_offset_kernel-shifted :
    (pmd va k : ℕ) → pte_offset_kernel pmd (va + k * 2 ^ 39) ≡ pte_offset_kernel pmd va
unfolding pte_offset_kernel
pte_offset_kernel-shifted pmd va k = omega (arith, pte_index-shifted va k)

-- A walk from the register's value is the walk for another address from the table.
pub clear_page_nx_flag-pcid :
    (physmem pa k va : ℕ)
    → va / 2 ^ 39 % 512 + k < 512
    → (m : Image)
    → clear_page_nx_flag physmem (pa + 8 * k) va m
      ≡ clear_page_nx_flag physmem pa (va + k * 2 ^ 39) m
unfolding clear_page_nx_flag
clear_page_nx_flag-pcid physmem pa k va room m =
    simp
      (
        pgd_offset_pgd-shifted pa va k room,
        pud_offset-shifted,
        pmd_offset-shifted,
        pte_offset_kernel-shifted,
      )
      refl

modify_image-pcid :
    (physmem pa k va : ℕ)
    → va / 2 ^ 39 % 512 + k < 512
    → (m : Image)
    → modify_image physmem (pa + 8 * k) va m ≡ modify_image physmem pa (va + k * 2 ^ 39) m
unfolding modify_image
modify_image-pcid physmem pa k va room m =
    ap (λ (run : Cmd ℤ). (run >>= λ rc. clear_tss_busy) m)
      (fun_ext (clear_page_nx_flag-pcid physmem pa k va room))

modify_mem_dump-pcid :
    (dump : Option Image) (physmem pa k va : ℕ)
    → va / 2 ^ 39 % 512 + k < 512
    → modify_mem_dump dump physmem (pa + 8 * k) va
      ≡ modify_mem_dump dump physmem pa (va + k * 2 ^ 39)
unfolding modify_mem_dump
modify_mem_dump-pcid none physmem pa k va room = refl
modify_mem_dump-pcid (some m) physmem pa k va room =
    ap
      (λ (o : Option (Unit {0} × Image)). elim o as (λ _. Outcome) [
        | none ↦ crashed
        | some (u, m') ↦ exited 0 (some m')
      ])
      (modify_image-pcid physmem pa k va room m)

-- A run of the program whose second argument is a CR3 with the address of a page below 2^52 and a
-- context identifier: where the identifier is a multiple `8 * k` of the size of an entry, and the
-- `k`-th entry behind that of the address to be changed is in the table, the run ends as the one
-- from the table's true address, which `cr3_to_pgt_pa` finds, for the address `k * 2^39` higher.
pub main-pcid :
    {Arg : Type 0} (strtoul : Arg → ℕ) (fopen : Arg → Option Image) (physmem pa k : ℕ)
    (program filename cr3 va : Arg) (rest : List Arg)
    → pa % 4096 ≡ 0
    → pa < 2 ^ 52
    → strtoul cr3 ≡ pa + 8 * k
    → strtoul va / 2 ^ 39 % 512 + k < 512
    → (cr3_to_pgt_pa (strtoul cr3) ≡ pa)
      × (main strtoul fopen physmem (program ∷ filename ∷ cr3 ∷ va ∷ rest)
          ≡ modify_mem_dump
              (fopen filename)
              physmem
              (cr3_to_pgt_pa (strtoul cr3))
              (strtoul va + k * 2 ^ 39))
main-pcid strtoul fopen physmem pa k program filename cr3 va rest al reach given room =
    let masked : cr3_to_pgt_pa (strtoul cr3) ≡ pa =
      ap cr3_to_pgt_pa given ∙ cr3_to_pgt_pa_lem pa (8 * k) al reach (omega arith) in
    (
      masked,
      main-modify_mem_dump strtoul fopen physmem program filename cr3 va rest
          ∙ ap (λ c. modify_mem_dump (fopen filename) physmem c (strtoul va)) given
          ∙ modify_mem_dump-pcid (fopen filename) physmem pa k (strtoul va) room
          ∙ ap (λ c. modify_mem_dump (fopen filename) physmem c (strtoul va + k * 2 ^ 39))
              (sym masked),
    )
