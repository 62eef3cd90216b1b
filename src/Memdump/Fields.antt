-- ===== src/Memdump/Fields.antt =====
-- The masks of modify-mem-dump.c as arithmetic: indices, frames and flag bits.
use resume_from_edk2_tooling.Base.{
  ℕ, ◌*◌, ◌/◌, ◌%◌, ◌^◌, ◌≡◌, true, false, bit_and, inr, arith, ◌==◌, ◌<◌, ◌+◌, if◌then◌else◌,
  Bool-cases, inl, inr,
}
use resume_from_edk2_tooling.Base.Bits.{bit_and_field, bit_and_low, bit_and_complement}
use resume_from_edk2_tooling.Memdump.Paging.{
  pgd_index, pud_index, pmd_index, pte_index, is_set, page_pse, page_nx, not64, pgd_page_vaddr,
  pud_page_vaddr, pmd_page_vaddr, pud_flags, shl64, pmd_flags, physical_pud_page_mask,
  physical_pmd_page_mask, pte_pfn_mask,
}

-- The number of an entry, and the address in it.
abbrev pub frame_4k : ℕ → ℕ
frame_4k e = e / 2 ^ 12 % 2 ^ 40 * 2 ^ 12

abbrev pub frame_2m : ℕ → ℕ
frame_2m e = e / 2 ^ 21 % 2 ^ 31 * 2 ^ 21

abbrev pub frame_1g : ℕ → ℕ
frame_1g e = e / 2 ^ 30 % 2 ^ 22 * 2 ^ 30

pub pgd_index_lem : (va : ℕ) → pgd_index va ≡ va / 2 ^ 39 % 512
pgd_index_lem va = bit_and_low 9 (va / 2 ^ 39)

pub pud_index_lem : (va : ℕ) → pud_index va ≡ va / 2 ^ 30 % 512
pud_index_lem va = bit_and_low 9 (va / 2 ^ 30)

pub pmd_index_lem : (va : ℕ) → pmd_index va ≡ va / 2 ^ 21 % 512
pmd_index_lem va = bit_and_low 9 (va / 2 ^ 21)

pub pte_index_lem : (va : ℕ) → pte_index va ≡ va / 2 ^ 12 % 512
pte_index_lem va = bit_and_low 9 (va / 2 ^ 12)

pub pgd_page_vaddr_lem : (pgd : ℕ) → pgd_page_vaddr pgd ≡ frame_4k pgd
unfolding pgd_page_vaddr
pgd_page_vaddr_lem pgd = bit_and_field 12 40 pgd

-- The test of the large-page bit.
pub is_set_pse : (e : ℕ) → is_set e page_pse ≡ (e / 2 ^ 7 % 2 == 1)
is_set_pse e = ground (arith, bit_and_field 7 1 e)

pub pud_page_vaddr_small : (e : ℕ) → (e / 2 ^ 7 % 2 == 1) ≡ false → pud_page_vaddr e ≡ frame_4k e
unfolding pud_page_vaddr
pud_page_vaddr_small e h = rw (is_set_pse e, h) (bit_and_field 12 40 e)

pub pud_page_vaddr_huge : (e : ℕ) → (e / 2 ^ 7 % 2 == 1) ≡ true → pud_page_vaddr e ≡ frame_1g e
unfolding pud_page_vaddr
pud_page_vaddr_huge e h = rw (is_set_pse e, h) (bit_and_field 30 22 e)

pub pmd_page_vaddr_small : (e : ℕ) → (e / 2 ^ 7 % 2 == 1) ≡ false → pmd_page_vaddr e ≡ frame_4k e
unfolding pmd_page_vaddr
pmd_page_vaddr_small e h = rw (is_set_pse e, h) (bit_and_field 12 40 e)

pub pmd_page_vaddr_large : (e : ℕ) → (e / 2 ^ 7 % 2 == 1) ≡ true → pmd_page_vaddr e ≡ frame_2m e
unfolding pmd_page_vaddr
pmd_page_vaddr_large e h = rw (is_set_pse e, h) (bit_and_field 21 31 e)

-- Clearing bit 63 leaves the 63 bits below it.
pub clear_nx_lem : (e : ℕ) → bit_and e (not64 page_nx) ≡ e % 2 ^ 63
clear_nx_lem e = bit_and_low 63 e

-- Clearing bit 41 of a 64-bit word.
pub clear_bit41_lem :
    (w : ℕ) → w < 2 ^ 64 → bit_and w (not64 (shl64 1 41)) + w / 2 ^ 41 % 2 * 2 ^ 41 ≡ w
clear_bit41_lem w h =
    omega (arith, bit_and_complement 64 w (2 ^ 41) (omega arith), bit_and_field 41 1 w)

-- The four indices and the offset in the page are the 48 bits of an address that the tables read.
pub indices_lem :
    (va : ℕ)
    → pgd_index va * 2 ^ 39
        + pud_index va * 2 ^ 30
        + pmd_index va * 2 ^ 21
        + pte_index va * 2 ^ 12
        + va % 2 ^ 12
      ≡ va % 2 ^ 48
indices_lem va =
    omega (arith, pgd_index_lem va, pud_index_lem va, pmd_index_lem va, pte_index_lem va)

-- For a 64-bit entry of any kind the address and the flags part its 64 bits, and the address is aligned
-- to the size of what it names: 1 GB or 2 MB for a large page, 4 KB for a table.
pub flags_part_address :
    (e : ℕ)
    → e < 2 ^ 64
    → (pud_flags e + pud_page_vaddr e ≡ e)
      × (pmd_flags e + pmd_page_vaddr e ≡ e)
      × (pud_page_vaddr e % (if e / 2 ^ 7 % 2 == 1 then 2 ^ 30 else 2 ^ 12) ≡ 0)
      × (pmd_page_vaddr e % (if e / 2 ^ 7 % 2 == 1 then 2 ^ 21 else 2 ^ 12) ≡ 0)
unfolding pud_flags pud_page_vaddr pmd_flags pmd_page_vaddr
flags_part_address e h = elim (Bool-cases (e / 2 ^ 7 % 2 == 1)) [
  | inl pse ↦
      rw (is_set_pse e, pse)
        (
          omega (arith, bit_and_complement 64 e physical_pud_page_mask (omega arith)),
          omega (arith, bit_and_complement 64 e physical_pmd_page_mask (omega arith)),
          omega (arith, bit_and_field 30 22 e),
          omega (arith, bit_and_field 21 31 e),
        )
  | inr tables ↦
      rw (is_set_pse e, tables)
        (
          omega (arith, bit_and_complement 64 e pte_pfn_mask (omega arith)),
          omega (arith, bit_and_complement 64 e pte_pfn_mask (omega arith)),
          omega (arith, bit_and_field 12 40 e),
          omega (arith, bit_and_field 12 40 e),
        )
]
