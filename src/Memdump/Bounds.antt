-- ===== src/Memdump/Bounds.antt =====
-- Where the accesses of the program fall, and when all of them are inside the dump.
use resume_from_edk2_tooling.Base.{
  ℕ, ◌+◌, ◌%◌, ◌^◌, ◌≤◌, ◌<◌, bit_and, ◌≡◌, refl, ap, ◌≢◌, inl, inr, Bool, true, false, Option,
  none, some, arith, leb, ◌==◌, Bool-cases,
}
use resume_from_edk2_tooling.Base.Int.{ℤ, pos, negsuc}
use resume_from_edk2_tooling.Memdump.Image.{
  Image, word, write, load, store, and_then, return_if, Cmd,
}
use resume_from_edk2_tooling.Memdump.Paging.{
  not64, page_nx, shl64, pgd_none, pud_none, pmd_none, pgd_page_vaddr, pud_page_vaddr,
  pmd_page_vaddr,
}
use resume_from_edk2_tooling.Memdump.Fields.{
  pgd_index_lem, pud_index_lem, pmd_index_lem, pte_index_lem,
}
use resume_from_edk2_tooling.Memdump.Clear.{
  entry_at, pgd_offset_pgd, pud_offset, pmd_offset, pte_offset_kernel, clear_nx, clear_pte,
  clear_page_nx_flag,
}
use resume_from_edk2_tooling.Memdump.Program.{
  clear_tss_busy, modify_image, modify_mem_dump, Outcome, exited, crashed, gdt_phys_addr,
  tss_offset,
}
use resume_from_edk2_tooling.Memdump.Refine.{IsMapped}

-- The page at offset `t` is in the dump.
abbrev pub HasPage : Image → ℕ → Type 0
HasPage m t = t + 4096 ≤ m.mapped

-- The root's page, and the page that each entry on the way to `va` names unless it is 0.
pub record HasTables (m : Image) (base va : ℕ) : Type 0 where
  pub root : HasPage m base
  pub upper :
      let pgd = word m.byte (pgd_offset_pgd base va) in pgd ≢ 0 → HasPage m (pgd_page_vaddr pgd)
  pub middle :
      let pgd = word m.byte (pgd_offset_pgd base va) in
      let pud = word m.byte (pud_offset pgd va) in
      pgd ≢ 0 → pud ≢ 0 → HasPage m (pud_page_vaddr pud)
  pub lower :
      let pgd = word m.byte (pgd_offset_pgd base va) in
      let pud = word m.byte (pud_offset pgd va) in
      let pmd = word m.byte (pmd_offset pud va) in
      pgd ≢ 0 → pud ≢ 0 → pmd ≢ 0 → HasPage m (pmd_page_vaddr pmd)

-- An entry of a table in the dump is in the dump, at the address computed without wrapping.
entry_at-inside :
    (m : Image) (physmem table i : ℕ)
    → IsMapped physmem m
    → HasPage m table
    → i < 512
    → entry_at table i + 8 ≤ m.mapped
entry_at-inside m physmem table i at page h = omega (arith, at.fits)

-- A run that ends, and not with -4.
abbrev pub Ends : Image → Cmd ℤ → Type 0
Ends m c =
    (rc : ℤ) × (m' : Image) × (c m ≡ some (rc, m')) × (rc ≢ negsuc 3) × (m'.mapped ≡ m.mapped)

status_apart : {n : ℕ} → n < 3 → negsuc n ≢ negsuc 3
status_apart small h = grind arith

load-return_if-Ends :
    (a n : ℕ) (stop : ℕ → Bool) (k : ℕ → Cmd ℤ) (m : Image)
    → a + 8 ≤ m.mapped
    → n < 3
    → (stop (word m.byte a) ≡ false → Ends m (k (word m.byte a)))
    → Ends m (λ t. and_then (load a t) (λ v. return_if (stop v) (negsuc n) (k v)))
unfolding load
load-return_if-Ends a n stop k m inside small rest =
    let in_range : leb (a + 8) m.mapped ≡ true = ground arith in
    elim (Bool-cases (stop (word m.byte a))) [
      | inl t ↦ (negsuc n, m, simp (in_range, t) refl, (λ h. status_apart small h), refl)
      | inr f ↦ rw (in_range, f) (rest f)
    ]

clear_pte-Ends :
    (physmem a : ℕ) (m : Image)
    → IsMapped physmem m
    → a + 8 ≤ m.mapped
    → Ends m (clear_pte physmem a)
unfolding clear_pte clear_nx load store
clear_pte-Ends physmem a m at inside =
    let in_range : leb (a + 8) m.mapped ≡ true = ground arith in
    let somewhere : ((physmem + a) % 2 ^ 64 == 0) ≡ false = ground (arith, at.fits, at.nonzero) in
    (
      pos 0,
      write m a (bit_and (word m.byte a) (not64 page_nx)),
      simp (somewhere, in_range) refl,
      (λ h. cc),
      refl,
    )

nonzero : {e : ℕ} → (e == 0) ≡ false → e ≢ 0
nonzero h = ground arith

-- The four places that a run looks at.
module _ (physmem : ℕ) (m : Image) (at : IsMapped physmem m) where
  pgd_offset_pgd-inside : (base va : ℕ) → HasPage m base → pgd_offset_pgd base va + 8 ≤ m.mapped
  unfolding pgd_offset_pgd
  pgd_offset_pgd-inside base va page =
      entry_at-inside m physmem base _ at page (omega (arith, pgd_index_lem va))

  pud_offset-inside :
      (pgd va : ℕ) → HasPage m (pgd_page_vaddr pgd) → pud_offset pgd va + 8 ≤ m.mapped
  unfolding pud_offset
  pud_offset-inside pgd va page =
      entry_at-inside m physmem (pgd_page_vaddr pgd) _ at page (omega (arith, pud_index_lem va))

  pmd_offset-inside :
      (pud va : ℕ) → HasPage m (pud_page_vaddr pud) → pmd_offset pud va + 8 ≤ m.mapped
  unfolding pmd_offset
  pmd_offset-inside pud va page =
      entry_at-inside m physmem (pud_page_vaddr pud) _ at page (omega (arith, pmd_index_lem va))

  pte_offset_kernel-inside :
      (pmd va : ℕ) → HasPage m (pmd_page_vaddr pmd) → pte_offset_kernel pmd va + 8 ≤ m.mapped
  unfolding pte_offset_kernel
  pte_offset_kernel-inside pmd va page =
      entry_at-inside m physmem (pmd_page_vaddr pmd) _ at page (omega (arith, pte_index_lem va))

  clear_page_nx_flag-Ends :
      (base va : ℕ) → HasTables m base va → Ends m (clear_page_nx_flag physmem base va)
  unfolding clear_page_nx_flag
  clear_page_nx_flag-Ends base va tables =
      load-return_if-Ends _ 0 pgd_none _ m (pgd_offset_pgd-inside base va tables.root) (omega arith)
        λ pgd.
          load-return_if-Ends _ 1 pud_none _ m (pud_offset-inside _ va (tables.upper (nonzero pgd)))
            (omega arith)
            λ pud.
              load-return_if-Ends _ 2 pmd_none _ m
                (pmd_offset-inside _ va (tables.middle (nonzero pgd) (nonzero pud))) (omega arith)
                λ pmd. clear_pte-Ends physmem _ m at (
                  pte_offset_kernel-inside _ va
                    (tables.lower (nonzero pgd) (nonzero pud) (nonzero pmd)))

clear_tss_busy-some :
    (m : Image)
    → gdt_phys_addr + tss_offset + 8 ≤ m.mapped
    → (m' : Image) × (clear_tss_busy m ≡ some (tt, m'))
unfolding clear_tss_busy load store
clear_tss_busy-some m h =
    let in_range : leb (gdt_phys_addr + tss_offset + 8) m.mapped ≡ true = ground arith in
    let a : ℕ = gdt_phys_addr + tss_offset in
    (write m a (bit_and (word m.byte a) (not64 (shl64 1 41))), simp in_range refl)

modify_image-some :
    (physmem cr3 va : ℕ) (m : Image)
    → Ends m (clear_page_nx_flag physmem cr3 va)
    → gdt_phys_addr + tss_offset + 8 ≤ m.mapped
    → (m' : Image) × (modify_image physmem cr3 va m ≡ some (tt, m'))
unfolding modify_image
modify_image-some physmem cr3 va m (rc, m1, run, other, size) h =
    let last = clear_tss_busy-some m1 (omega (arith, size)) in (last.0, rw run last.1)

pub modify_mem_dump-exited_by :
    (physmem cr3 va : ℕ) (m : Image) {m' : Image}
    → modify_image physmem cr3 va m ≡ some (tt, m')
    → modify_mem_dump (some m) physmem cr3 va ≡ exited 0 (some m')
unfolding modify_mem_dump
modify_mem_dump-exited_by physmem cr3 va m h =
    ap
      (λ (o : Option (Unit {0} × Image)). elim o as (λ _. Outcome) [
        | none ↦ crashed
        | some (u, m') ↦ exited 0 (some m')
      ])
      h

-- If the dump is mapped below the end of the address space and not at 0, and holds the page of the
-- root, the page that each entry on the way to the address names unless it is 0, and the TSS
-- descriptor, then no access of the program falls outside the dump: the program ends with 0, and
-- the status of `ClearPageNXFlag` is not -4.
pub modify_mem_dump-exited :
    (physmem cr3 va : ℕ) (m : Image)
    → IsMapped physmem m
    → HasTables m cr3 va
    → gdt_phys_addr + tss_offset + 8 ≤ m.mapped
    → ((m' : Image) × (modify_mem_dump (some m) physmem cr3 va ≡ exited 0 (some m')))
      × ((rc : ℤ) × (m' : Image) × (clear_page_nx_flag physmem cr3 va m ≡ some (rc, m'))
          × (rc ≢ negsuc 3))
modify_mem_dump-exited physmem cr3 va m at tables h =
    let first = clear_page_nx_flag-Ends physmem m at cr3 va tables in
    let whole = modify_image-some physmem cr3 va m first h in
    (
      (whole.0, modify_mem_dump-exited_by physmem cr3 va m whole.1),
      (first.0, first.1, first.2, first.3),
    )
