-- ===== src/Memdump/Flags.antt =====
-- The page flags and protections of memdump/modify-mem-dump.c, with the macros for the root of the
-- tables and for kernel addresses. `__pg`, `_PAGE_CACHE_WP`, `_PAGE_NOCACHE`, `_PAGE_BIT_SPECIAL` and
-- `_PAGE_BIT_CPA_TEST` have no definition in that file: a protection is the argument of `__pg`, and
-- what names one of the others is left out.
pub mod Protected
use resume_from_edk2_tooling.Base.{ℕ, ◌+◌, ◌%◌, ◌^◌, bit_and, bit_or, List, [], ◌∷◌}
use resume_from_edk2_tooling.Memdump.Paging.{
  shl64, page_pse, page_nx, pmd_shift, pud_shift, pgdir_shift,
}

abbrev pub page_bit_present : ℕ
page_bit_present = 0

abbrev pub page_bit_rw : ℕ
page_bit_rw = 1

abbrev pub page_bit_user : ℕ
page_bit_user = 2

abbrev pub page_bit_pwt : ℕ
page_bit_pwt = 3

abbrev pub page_bit_pcd : ℕ
page_bit_pcd = 4

abbrev pub page_bit_accessed : ℕ
page_bit_accessed = 5

abbrev pub page_bit_dirty : ℕ
page_bit_dirty = 6

abbrev pub page_bit_pat : ℕ
page_bit_pat = 7

abbrev pub page_bit_global : ℕ
page_bit_global = 8

abbrev pub page_bit_softw1 : ℕ
page_bit_softw1 = 9

abbrev pub page_bit_softw2 : ℕ
page_bit_softw2 = 10

abbrev pub page_bit_softw3 : ℕ
page_bit_softw3 = 11

abbrev pub page_bit_pat_large : ℕ
page_bit_pat_large = 12

abbrev pub page_bit_softw4 : ℕ
page_bit_softw4 = 58

abbrev pub page_bit_pkey_bit0 : ℕ
page_bit_pkey_bit0 = 59

abbrev pub page_bit_pkey_bit1 : ℕ
page_bit_pkey_bit1 = 60

abbrev pub page_bit_pkey_bit2 : ℕ
page_bit_pkey_bit2 = 61

abbrev pub page_bit_pkey_bit3 : ℕ
page_bit_pkey_bit3 = 62

abbrev pub page_present : ℕ
page_present = shl64 1 page_bit_present

abbrev pub page_rw : ℕ
page_rw = shl64 1 page_bit_rw

abbrev pub page_user : ℕ
page_user = shl64 1 page_bit_user

abbrev pub page_pwt : ℕ
page_pwt = shl64 1 page_bit_pwt

abbrev pub page_pcd : ℕ
page_pcd = shl64 1 page_bit_pcd

abbrev pub page_accessed : ℕ
page_accessed = shl64 1 page_bit_accessed

abbrev pub page_dirty : ℕ
page_dirty = shl64 1 page_bit_dirty

abbrev pub page_global : ℕ
page_global = shl64 1 page_bit_global

abbrev pub page_softw1 : ℕ
page_softw1 = shl64 1 page_bit_softw1

abbrev pub page_softw2 : ℕ
page_softw2 = shl64 1 page_bit_softw2

abbrev pub page_softw3 : ℕ
page_softw3 = shl64 1 page_bit_softw3

abbrev pub page_pat : ℕ
page_pat = shl64 1 page_bit_pat

abbrev pub page_pat_large : ℕ
page_pat_large = shl64 1 page_bit_pat_large

-- `sme_me_mask` is 0.
abbrev pub page_enc : ℕ
page_enc = 0

-- A protection is named as its macro, without `PAGE`.
pub data Protection : Type 0 where
  page_none shared shared_exec copy_noexec copy_exec copy readonly readonly_exec kernel kernel_exec
        kernpg_table_noenc kernpg_table page_table_noenc page_table kernel_ro kernel_rx kernel_vvar
        kernel_large kernel_large_exec :
      Protection

-- `a | b | …`
abbrev pub flags_of : List ℕ → ℕ
flags_of [] = 0
flags_of (f ∷ rest) = bit_or f (flags_of rest)

unfoldable pub protection_val : Protection → ℕ
protection_val page_none = flags_of (page_accessed ∷ page_global ∷ [])
protection_val shared = flags_of (page_present ∷ page_rw ∷ page_user ∷ page_accessed ∷ page_nx ∷ [])
protection_val shared_exec = flags_of (page_present ∷ page_rw ∷ page_user ∷ page_accessed ∷ [])
protection_val copy_noexec = flags_of (page_present ∷ page_user ∷ page_accessed ∷ page_nx ∷ [])
protection_val copy_exec = flags_of (page_present ∷ page_user ∷ page_accessed ∷ [])
protection_val copy = flags_of (page_present ∷ page_user ∷ page_accessed ∷ page_nx ∷ [])
protection_val readonly = flags_of (page_present ∷ page_user ∷ page_accessed ∷ page_nx ∷ [])
protection_val readonly_exec = flags_of (page_present ∷ page_user ∷ page_accessed ∷ [])
protection_val kernel =
    flags_of (page_present ∷ page_rw ∷ page_accessed ∷ page_nx ∷ page_dirty ∷ page_global ∷ [])
protection_val kernel_exec =
    flags_of (page_present ∷ page_rw ∷ page_accessed ∷ page_dirty ∷ page_global ∷ [])
protection_val kernpg_table_noenc =
    flags_of (page_present ∷ page_rw ∷ page_accessed ∷ page_dirty ∷ [])
protection_val kernpg_table =
    flags_of (page_present ∷ page_rw ∷ page_accessed ∷ page_dirty ∷ page_enc ∷ [])
protection_val page_table_noenc =
    flags_of (page_present ∷ page_rw ∷ page_user ∷ page_accessed ∷ page_dirty ∷ [])
protection_val page_table =
    flags_of (page_present ∷ page_rw ∷ page_user ∷ page_accessed ∷ page_dirty ∷ page_enc ∷ [])
protection_val kernel_ro =
    flags_of (page_present ∷ page_accessed ∷ page_nx ∷ page_dirty ∷ page_global ∷ [])
protection_val kernel_rx = flags_of (page_present ∷ page_accessed ∷ page_dirty ∷ page_global ∷ [])
protection_val kernel_vvar =
    flags_of (page_present ∷ page_user ∷ page_accessed ∷ page_nx ∷ page_dirty ∷ page_global ∷ [])
protection_val kernel_large =
    flags_of
      (page_present ∷ page_rw ∷ page_accessed ∷ page_nx ∷ page_dirty ∷ page_pse ∷ page_global ∷ [])
protection_val kernel_large_exec =
    flags_of (page_present ∷ page_rw ∷ page_accessed ∷ page_dirty ∷ page_pse ∷ page_global ∷ [])

abbrev pub cr3_addr_mask : ℕ
cr3_addr_mask = 0x7ffffffffffff000

abbrev pub cr3_to_pgt_pa : ℕ → ℕ
cr3_to_pgt_pa cr3 = bit_and cr3 cr3_addr_mask

abbrev pub page_offset : ℕ
page_offset = 0xffff888000000000

abbrev pub kernel_offset : ℕ
kernel_offset = 0x1000000

abbrev pub k_offset : ℕ → ℕ
k_offset address = (page_offset + kernel_offset + address) % 2 ^ 64

abbrev pub va : ℕ → ℕ
va x = (x + page_offset) % 2 ^ 64

-- The sizes that an entry of each table covers, and the number of entries of each.
abbrev pub pmd_size : ℕ
pmd_size = shl64 1 pmd_shift

abbrev pub pud_size : ℕ
pud_size = shl64 1 pud_shift

abbrev pub pgdir_size : ℕ
pgdir_size = shl64 1 pgdir_shift
