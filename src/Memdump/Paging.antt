-- ===== src/Memdump/Paging.antt =====
-- The page-table types, masks and index macros of modify-mem-dump.c on x86-64, where
-- `unsigned long` has 64 bits.
use resume_from_edk2_tooling.Base.{
  ℕ, ◌+◌, ◌-◌, ◌*◌, ◌/◌, ◌%◌, ◌^◌, Bool, not, bit_and, ◌==◌, if◌then◌else◌,
}

-- `x << k`, `x >> k` and `~x` on `unsigned long`.
abbrev pub shl64 : ℕ → ℕ → ℕ
shl64 x k = x * 2 ^ k % 2 ^ 64

abbrev pub shr : ℕ → ℕ → ℕ
shr x k = x / 2 ^ k

abbrev pub not64 : ℕ → ℕ
not64 x = 2 ^ 64 - 1 - x

abbrev pub page_bit_pse : ℕ
page_bit_pse = 7

abbrev pub page_bit_nx : ℕ
page_bit_nx = 63

abbrev pub page_pse : ℕ
page_pse = shl64 1 page_bit_pse

abbrev pub page_nx : ℕ
page_nx = shl64 1 page_bit_nx

abbrev pub pte_order : ℕ
pte_order = 0

abbrev pub page_shift : ℕ
page_shift = 12

abbrev pub physical_mask_shift : ℕ
physical_mask_shift = 52

abbrev pub pmd_shift : ℕ
pmd_shift = page_shift + (page_shift + pte_order - 3)

abbrev pub pmd_bits : ℕ
pmd_bits = page_shift - 3

abbrev pub pud_shift : ℕ
pud_shift = pmd_shift + pmd_bits

abbrev pub pud_bits : ℕ
pud_bits = page_shift - 3

abbrev pub pgdir_shift : ℕ
pgdir_shift = pud_shift + pud_bits

abbrev pub entries : ℕ
entries = 512

abbrev pub pgd_index : ℕ → ℕ
pgd_index address = bit_and (shr address pgdir_shift) (entries - 1)

abbrev pub pud_index : ℕ → ℕ
pud_index address = bit_and (shr address pud_shift) (entries - 1)

abbrev pub pmd_index : ℕ → ℕ
pmd_index address = bit_and (shr address pmd_shift) (entries - 1)

abbrev pub pte_index : ℕ → ℕ
pte_index address = bit_and (shr address page_shift) (entries - 1)

abbrev pub page_size : ℕ
page_size = 4096

abbrev pub physical_mask : ℕ
physical_mask = shl64 1 physical_mask_shift - 1

-- `PAGE_MASK` is an `int`: the cast to `signed long` extends its sign, which is `~` on 64 bits.
abbrev pub page_mask : ℕ
page_mask = not64 (page_size - 1)

abbrev pub pte_pfn_mask : ℕ
pte_pfn_mask = bit_and page_mask physical_mask

abbrev pub pud_page_size : ℕ
pud_page_size = shl64 1 pud_shift

abbrev pub pud_page_mask : ℕ
pud_page_mask = not64 (pud_page_size - 1)

abbrev pub pmd_page_size : ℕ
pmd_page_size = shl64 1 pmd_shift

abbrev pub pmd_page_mask : ℕ
pmd_page_mask = not64 (pmd_page_size - 1)

abbrev pub physical_pmd_page_mask : ℕ
physical_pmd_page_mask = bit_and pmd_page_mask physical_mask

abbrev pub physical_pud_page_mask : ℕ
physical_pud_page_mask = bit_and pud_page_mask physical_mask

-- The C truth of `x & m`.
abbrev pub is_set : ℕ → ℕ → Bool
is_set x m = not (bit_and x m == 0)

-- `pud_t` and `pmd_t` hold one word.
abbrev pub native_pud_val : ℕ → ℕ
native_pud_val pud = pud

abbrev pub native_pmd_val : ℕ → ℕ
native_pmd_val pmd = pmd

unfoldable pub pud_pfn_mask : ℕ → ℕ
pud_pfn_mask pud =
    if is_set (native_pud_val pud) page_pse then physical_pud_page_mask else pte_pfn_mask

unfoldable pub pud_flags_mask : ℕ → ℕ
unfolding pud_pfn_mask
pud_flags_mask pud = not64 (pud_pfn_mask pud)

unfoldable pub pud_flags : ℕ → ℕ
unfolding pud_flags_mask
pud_flags pud = bit_and (native_pud_val pud) (pud_flags_mask pud)

unfoldable pub pmd_pfn_mask : ℕ → ℕ
pmd_pfn_mask pmd =
    if is_set (native_pmd_val pmd) page_pse then physical_pmd_page_mask else pte_pfn_mask

unfoldable pub pmd_flags_mask : ℕ → ℕ
unfolding pmd_pfn_mask
pmd_flags_mask pmd = not64 (pmd_pfn_mask pmd)

unfoldable pub pmd_flags : ℕ → ℕ
unfolding pmd_flags_mask
pmd_flags pmd = bit_and (native_pmd_val pmd) (pmd_flags_mask pmd)

unfoldable pub pgd_page_vaddr : ℕ → ℕ
pgd_page_vaddr pgd = bit_and pgd pte_pfn_mask

unfoldable pub pud_page_vaddr : ℕ → ℕ
unfolding pud_pfn_mask
pud_page_vaddr pud = bit_and pud (pud_pfn_mask pud)

unfoldable pub pmd_page_vaddr : ℕ → ℕ
unfolding pmd_pfn_mask
pmd_page_vaddr pmd = bit_and pmd (pmd_pfn_mask pmd)

abbrev pub pgd_none : ℕ → Bool
pgd_none pgd = pgd == 0

abbrev pub pud_none : ℕ → Bool
pud_none pud = pud == 0

abbrev pub pmd_none : ℕ → Bool
pmd_none pmd = pmd == 0
