-- ===== src/Memdump/Refine.antt =====
-- `ClearPageNXFlag` against the page walk.
use resume_from_edk2_tooling.Base.{
  ℕ, ◌+◌, ◌*◌, ◌/◌, ◌%◌, ◌^◌, ◌≤◌, ◌<◌, ◌≡◌, true, false, arith, ◌==◌, ◌≢◌, some, Option-cases,
  Bool-cases, inl, inr, ap, ◌∙◌,
}
use resume_from_edk2_tooling.Base.Int.{pos}
use resume_from_edk2_tooling.Memdump.Image.{Image, word, write, load, store, ◌>>=◌}
use resume_from_edk2_tooling.Memdump.Paging.{pmd_page_vaddr}
use resume_from_edk2_tooling.Memdump.Fields.{
  frame_4k, frame_2m, frame_1g, pgd_index_lem, pud_index_lem, pmd_index_lem, pte_index_lem,
  pgd_page_vaddr_lem, pud_page_vaddr_small, pmd_page_vaddr_small, clear_nx_lem,
}
use resume_from_edk2_tooling.Memdump.Walk.{
  Leaf, huge, large, small, entry, walk_pmd, walk_pud, walk,
}
use resume_from_edk2_tooling.Memdump.Clear.{
  entry_at, pgd_offset_pgd, pud_offset, pmd_offset, pte_offset_kernel, clear_nx, clear_pte,
  clear_page_nx_flag,
}

-- The mapping lies in the address space and not at the null pointer.
pub record IsMapped (physmem : ℕ) (m : Image) : Type 0 where
  pub nonzero : 0 < physmem
  pub fits : physmem + m.mapped ≤ 2 ^ 64

pub record Present (m : Image) (a e : ℕ) : Type 0 where
  pub inside : a + 8 ≤ m.mapped
  pub holds : word m.byte a ≡ e
  pub present : e % 2 ≡ 1

pub entry-Present : (m : Image) (a : ℕ) {e : ℕ} → entry m a ≡ some e → Present m a e
unfolding entry
entry-Present m a h = ground arith

-- The three entries that a walk to the last two levels meets.
pub record Route (m : Image) (base va pgd pud pmd : ℕ) : Type 0 where
  pub pgd_at : Present m (base + 8 * (va / 2 ^ 39 % 512)) pgd
  pub pud_at : Present m (frame_4k pgd + 8 * (va / 2 ^ 30 % 512)) pud
  pub pud_small : (pud / 2 ^ 7 % 2 == 1) ≡ false
  pub pmd_at : Present m (frame_4k pud + 8 * (va / 2 ^ 21 % 512)) pmd

walk_pmd-small :
    (m : Image) (table va slot : ℕ)
    → walk_pmd m table va ≡ some (small slot)
    → (e : ℕ) × (entry m (table + 8 * (va / 2 ^ 21 % 512)) ≡ some e)
      × ((e / 2 ^ 7 % 2 == 1) ≡ false)
      × (slot ≡ frame_4k e + 8 * (va / 2 ^ 12 % 512))
unfolding walk_pmd
walk_pmd-small m table va slot h = ground arith

walk_pmd-large :
    (m : Image) (table va frame : ℕ)
    → walk_pmd m table va ≡ some (large frame)
    → (e : ℕ) × (entry m (table + 8 * (va / 2 ^ 21 % 512)) ≡ some e)
      × ((e / 2 ^ 7 % 2 == 1) ≡ true)
      × (frame ≡ frame_2m e)
unfolding walk_pmd
walk_pmd-large m table va frame h = ground arith

walk_pud-tables :
    (m : Image) (table va : ℕ) (leaf : Leaf)
    → walk_pud m table va ≡ some leaf
    → ((f : ℕ) → leaf ≢ huge f)
    → (e : ℕ) × (entry m (table + 8 * (va / 2 ^ 30 % 512)) ≡ some e)
      × ((e / 2 ^ 7 % 2 == 1) ≡ false)
      × (walk_pmd m (frame_4k e) va ≡ some leaf)
unfolding walk_pud
walk_pud-tables m table va leaf h ne =
    elim (Option-cases (entry m (table + 8 * (va / 2 ^ 30 % 512)))) [
      | inl out ↦ absurd (ground arith)
      | inr (e, at) ↦ elim (Bool-cases (e / 2 ^ 7 % 2 == 1)) [
        | inl pse ↦ absurd (ground (arith, ne (frame_1g e)))
        | inr tables ↦ (e, at, tables, ground arith)
      ]
    ]

walk-tables :
    (m : Image) (base va : ℕ) (leaf : Leaf)
    → walk m base va ≡ some leaf
    → (e : ℕ) × (entry m (base + 8 * (va / 2 ^ 39 % 512)) ≡ some e)
      × (walk_pud m (frame_4k e) va ≡ some leaf)
unfolding walk
walk-tables m base va leaf h = ground arith

-- The word whose top bit the program clears when it comes to the entry `pmd`.
abbrev pub target : ℕ → ℕ → ℕ
target pmd va = entry_at (pmd_page_vaddr pmd) (va / 2 ^ 12 % 512)

pub load-inside : (m : Image) (a : ℕ) → a + 8 ≤ m.mapped → load a m ≡ some (word m.byte a, m)
unfolding load
load-inside m a h = ground arith

pub store-inside : (m : Image) (a v : ℕ) → a + 8 ≤ m.mapped → store a v m ≡ some (tt, write m a v)
unfolding store
store-inside m a v h = ground arith

clear_nx-write :
    (m : Image) (a : ℕ)
    → a + 8 ≤ m.mapped
    → clear_nx a m ≡ some (pos 0, write m a (word m.byte a % 2 ^ 63))
unfolding clear_nx
clear_nx-write m a h =
    rw (◌>>=◌, load-inside m a h, clear_nx_lem, store-inside m a (word m.byte a % 2 ^ 63) h)

load-Present : {m : Image} {a e : ℕ} → Present m a e → load a m ≡ some (e, m)
unfolding load
load-Present p = ground arith

module _ {physmem : ℕ} {m : Image} (at : IsMapped physmem m) where
  pub entry_at-Present : (a i : ℕ) {e : ℕ} → Present m (a + 8 * i) e → entry_at a i ≡ a + 8 * i
  entry_at-Present a i p = omega arith

  clear_pte-write :
      (a : ℕ)
      → a + 8 ≤ m.mapped
      → clear_pte physmem a m ≡ some (pos 0, write m a (word m.byte a % 2 ^ 63))
  unfolding clear_pte
  clear_pte-write a h =
      let mapped : ((physmem + a) % 2 ^ 64 == 0) ≡ false = ground arith in
      rw mapped (clear_nx-write m a h)

  module _ (base va : ℕ) where
    pgd_place :
        {e : ℕ}
        → Present m (base + 8 * (va / 2 ^ 39 % 512)) e
        → pgd_offset_pgd base va ≡ base + 8 * (va / 2 ^ 39 % 512)
    unfolding pgd_offset_pgd
    pgd_place p = rw (pgd_index_lem va) (entry_at-Present _ _ p)

    pud_place :
        (pgd : ℕ) {e : ℕ}
        → Present m (frame_4k pgd + 8 * (va / 2 ^ 30 % 512)) e
        → pud_offset pgd va ≡ frame_4k pgd + 8 * (va / 2 ^ 30 % 512)
    unfolding pud_offset
    pud_place pgd p = rw (pud_index_lem va, pgd_page_vaddr_lem pgd) (entry_at-Present _ _ p)

    pmd_place :
        (pud : ℕ) {e : ℕ}
        → (pud / 2 ^ 7 % 2 == 1) ≡ false
        → Present m (frame_4k pud + 8 * (va / 2 ^ 21 % 512)) e
        → pmd_offset pud va ≡ frame_4k pud + 8 * (va / 2 ^ 21 % 512)
    unfolding pmd_offset
    pmd_place pud s p = rw (pmd_index_lem va, pud_page_vaddr_small pud s) (entry_at-Present _ _ p)

    pte_place : (pmd : ℕ) → pte_offset_kernel pmd va ≡ target pmd va
    unfolding pte_offset_kernel
    pte_place pmd = rw (pte_index_lem va)

    -- The program follows the three tables of the walk, and clears the top bit of its target.
    pub clear_page_nx_flag-Route :
        {pgd pud pmd : ℕ}
        → Route m base va pgd pud pmd
        → target pmd va + 8 ≤ m.mapped
        → clear_page_nx_flag physmem base va m
          ≡ some (pos 0, write m (target pmd va) (word m.byte (target pmd va) % 2 ^ 63))
    unfolding clear_page_nx_flag
    clear_page_nx_flag-Route {pgd} {pud} {pmd} r h = ground (
      arith,
      pgd_place r.pgd_at,
      pud_place pgd r.pud_at,
      pmd_place pud r.pud_small r.pmd_at,
      pte_place pmd,
      load-Present r.pgd_at,
      load-Present r.pud_at,
      load-Present r.pmd_at,
      clear_pte-write (target pmd va) h,
    )

module _ (m : Image) (base va : ℕ) where
  pub walk-small :
      {slot : ℕ}
      → walk m base va ≡ some (small slot)
      → (pgd : ℕ) × (pud : ℕ) × (pmd : ℕ) × Route m base va pgd pud pmd
        × ((pmd / 2 ^ 7 % 2 == 1) ≡ false)
        × (slot ≡ frame_4k pmd + 8 * (va / 2 ^ 12 % 512))
  walk-small {slot} h =
      let (pgd, a, u) = walk-tables m base va (small slot) h in
      let (pud, b, s, v) = walk_pud-tables m (frame_4k pgd) va (small slot) u (λ f. cc) in
      let (pmd, c, t, e) = walk_pmd-small m (frame_4k pud) va slot v in
      (
        pgd,
        pud,
        pmd,
        record {
          pgd_at = entry-Present m _ a;
          pud_at = entry-Present m _ b;
          pud_small = s;
          pmd_at = entry-Present m _ c;
        },
        t,
        e,
      )

  pub walk-large :
      {frame : ℕ}
      → walk m base va ≡ some (large frame)
      → (pgd : ℕ) × (pud : ℕ) × (pmd : ℕ) × Route m base va pgd pud pmd
        × ((pmd / 2 ^ 7 % 2 == 1) ≡ true)
        × (frame ≡ frame_2m pmd)
  walk-large {frame} h =
      let (pgd, a, u) = walk-tables m base va (large frame) h in
      let (pud, b, s, v) = walk_pud-tables m (frame_4k pgd) va (large frame) u (λ f. cc) in
      let (pmd, c, t, e) = walk_pmd-large m (frame_4k pud) va frame v in
      (
        pgd,
        pud,
        pmd,
        record {
          pgd_at = entry-Present m _ a;
          pud_at = entry-Present m _ b;
          pud_small = s;
          pmd_at = entry-Present m _ c;
        },
        t,
        e,
      )

module _ {physmem : ℕ} {m : Image} (at : IsMapped physmem m) (base va : ℕ) where
  -- On a dump mapped below the end of the address space and not at 0, if the processor's walk of
  -- `va` ends in the entry of a 4 KB page that lies in the mapping, `ClearPageNXFlag` returns 0,
  -- and has cleared bit 63 of that entry and changed nothing else.
  pub clear_page_nx_flag-walk :
      {slot : ℕ}
      → walk m base va ≡ some (small slot)
      → slot + 8 ≤ m.mapped
      → clear_page_nx_flag physmem base va m
        ≡ some (pos 0, write m slot (word m.byte slot % 2 ^ 63))
  clear_page_nx_flag-walk {slot} h fits =
      let (pgd, pud, pmd, r, s, e) = walk-small m base va h in
      let place : target pmd va ≡ slot = omega (arith, pmd_page_vaddr_small pmd s) in
      clear_page_nx_flag-Route at base va r (rw place fits)
      ∙ ap (λ t. some (pos 0, write m t (word m.byte t % 2 ^ 63))) place
