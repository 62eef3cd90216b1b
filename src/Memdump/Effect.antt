-- ===== src/Memdump/Effect.antt =====
-- What a run of `ClearPageNXFlag` can do to a dump, whichever way it ends, and that the page
-- walk does not notice.
use resume_from_edk2_tooling.Base.{
  ℕ, ◌+◌, ◌/◌, ◌%◌, ◌^◌, ◌≤◌, ◌≡◌, Bool, arith, ◌==◌, leb, ◌⊎◌, some, Bool-cases, inl, inr,
}
use resume_from_edk2_tooling.Base.Int.{ℤ, pos, negsuc}
use resume_from_edk2_tooling.Memdump.Image.{
  Image, word, write, load, store, and_then, return_if, Cmd,
}
use resume_from_edk2_tooling.Memdump.Paging.{pgd_none, pud_none, pmd_none}
use resume_from_edk2_tooling.Memdump.Fields.{
  pmd_page_vaddr_small, pmd_page_vaddr_large, clear_nx_lem,
}
use resume_from_edk2_tooling.Memdump.Clear.{
  pte_offset_kernel, clear_nx, clear_pte, clear_page_nx_flag,
}

-- The run failed and left the dump as it was, or it returned 0 and cleared the top bit of one
-- aligned word.
pub record Cleared (m : Image) (rc : ℤ) (m' : Image) : Type 0 where
  pub at : ℕ
  pub aligned : at % 8 ≡ 0
  pub inside : at + 8 ≤ m.mapped
  pub returns : rc ≡ pos 0
  pub changed : m' ≡ write m at (word m.byte at % 2 ^ 63)

pub record Untouched (m : Image) (rc : ℤ) (m' : Image) : Type 0 where
  pub code : ℕ
  pub returns : rc ≡ negsuc code
  pub unchanged : m' ≡ m

abbrev pub Effect : Image → ℤ → Image → Type 0
Effect m rc m' = Untouched m rc m' ⊎ Cleared m rc m'

clear_nx-Effect :
    (a : ℕ) (m : Image) {rc : ℤ} {m' : Image}
    → a % 8 ≡ 0
    → clear_nx a m ≡ some (rc, m')
    → Cleared m rc m'
unfolding clear_nx load store
clear_nx-Effect a m al h = record {
  at = a;
  aligned = al;
  inside = ground arith;
  returns = ground arith;
  changed = ground (arith, clear_nx_lem (word m.byte a));
}

clear_pte-Effect :
    (physmem a : ℕ) (m : Image) {rc : ℤ} {m' : Image}
    → a % 8 ≡ 0
    → clear_pte physmem a m ≡ some (rc, m')
    → Effect m rc m'
unfolding clear_pte
clear_pte-Effect physmem a m al h = elim (Bool-cases ((physmem + a) % 2 ^ 64 == 0)) [
  | inl null ↦ inl (record { code = 3; returns = ground arith; unchanged = ground arith })
  | inr at ↦ inr (clear_nx-Effect a m al (rw at at h))
]

pte_offset_kernel-aligned : (pmd va : ℕ) → pte_offset_kernel pmd va % 8 ≡ 0
unfolding pte_offset_kernel
pte_offset_kernel-aligned pmd va = elim (Bool-cases (pmd / 2 ^ 7 % 2 == 1)) [
  | inl pse ↦ omega (arith, pmd_page_vaddr_large pmd pse)
  | inr tables ↦ omega (arith, pmd_page_vaddr_small pmd tables)
]

-- A load followed by a test that may return.
load-return_if-Effect :
    (a n : ℕ) (stop : ℕ → Bool) (k : ℕ → Cmd ℤ) (m : Image) {rc : ℤ} {m' : Image}
    → and_then (load a m) (λ v. return_if (stop v) (negsuc n) (k v)) ≡ some (rc, m')
    → ((v : ℕ) → k v m ≡ some (rc, m') → Effect m rc m')
    → Effect m rc m'
unfolding load
load-return_if-Effect a n stop k m h rest = elim (Bool-cases (leb (a + 8) m.mapped)) [
  | inr out ↦ absurd (ground arith)
  | inl in_range ↦ elim (Bool-cases (stop (word m.byte a))) [
    | inl t ↦ inl (record { code = n; returns = ground arith; unchanged = ground arith })
    | inr f ↦ rest (word m.byte a) (ground arith)
  ]
]

-- Whatever tables it is given, a run of `ClearPageNXFlag` that makes no access outside the mapping
-- has either returned a negative status and left the dump as it was, or returned 0 and cleared
-- the top bit of one aligned word inside the mapping, and nothing else.
pub clear_page_nx_flag-Effect :
    (physmem base va : ℕ) (m : Image) {rc : ℤ} {m' : Image}
    → clear_page_nx_flag physmem base va m ≡ some (rc, m')
    → Effect m rc m'
unfolding clear_page_nx_flag
clear_page_nx_flag-Effect physmem base va m h = load-return_if-Effect _ 0 pgd_none _ m h λ pgd h1.
    load-return_if-Effect _ 1 pud_none _ m h1 λ pud h2.
      load-return_if-Effect _ 2 pmd_none _ m h2
        λ pmd h3. clear_pte-Effect physmem _ m (pte_offset_kernel-aligned pmd va) h3
