-- ===== src/Tests/MemdumpTests.antt =====
-- A dump with four page tables, and a second one that maps the same address by a 2 MB page.
use resume_from_edk2_tooling.Base.{
  [], ◌∷◌, ℕ, ◌+◌, ◌*◌, ◌/◌, ◌%◌, ◌^◌, ◌≤◌, ◌<◌, ◌≡◌, ◌⊎◌, refl, arith, some, ◌≢◌, ◌∷◌, [], bit_and,
}
use resume_from_edk2_tooling.Memdump.Image.{Image, IsBytes, word, put_word, write}
use resume_from_edk2_tooling.Memdump.Refine.{IsMapped, clear_page_nx_flag-walk}
use resume_from_edk2_tooling.Base.Int.{pos, ℤ, negsuc}
use resume_from_edk2_tooling.Memdump.Words.{put_word-IsBytes}
use resume_from_edk2_tooling.Memdump.Walk.{walk, walk_pud, walk_pmd, entry, small, large}
use resume_from_edk2_tooling.Memdump.Clear.{
  clear_page_nx_flag, pgd_offset_pgd, pud_offset, pmd_offset,
}
use resume_from_edk2_tooling.Memdump.Paging.{
  pgd_index, pud_index, pmd_index, pte_index, pgd_page_vaddr, pud_page_vaddr, pmd_page_vaddr,
  pud_pfn_mask, pmd_pfn_mask, pte_pfn_mask,
}
use resume_from_edk2_tooling.Memdump.Fields.{indices_lem}
use resume_from_edk2_tooling.Memdump.Program.{main, modify_mem_dump, exited}
use resume_from_edk2_tooling.Memdump.LargePage.{clear_page_nx_flag-large}
use resume_from_edk2_tooling.Memdump.Effect.{Effect, clear_page_nx_flag-Effect}
use resume_from_edk2_tooling.Memdump.Preserve.{walk-clear_page_nx_flag}
use resume_from_edk2_tooling.Memdump.Bounds.{HasTables, modify_mem_dump-exited}
use resume_from_edk2_tooling.Memdump.Run.{main-walk}
use resume_from_edk2_tooling.Memdump.Whole.{tss_at}
use resume_from_edk2_tooling.Memdump.Root.{main-pcid}
use resume_from_edk2_tooling.Memdump.Flags.{kernel, kernel_exec, protection_val, cr3_to_pgt_pa}
use resume_from_edk2_tooling.Memdump.Flags.Protected.{
  Entry, IsEntry, entry_val, clear_page_nx_flag-executable_form,
}

abbrev zeros : ℕ → ℕ
zeros _ = 0

zeros-IsBytes : IsBytes zeros
zeros-IsBytes a = omega arith

-- The tables lie at 0x1000, 0x2000, 0x3000 and 0x4000; the entry for 0x5000 maps 0x7000
-- with the protection `__PAGE_KERNEL`.
abbrev small_bytes : ℕ → ℕ
small_bytes =
    put_word (put_word (put_word (put_word zeros 0x1000 0x2003) 0x2000 0x3003) 0x3000 0x4003) 0x4028
      0x8000000000007163

abbrev large_bytes : ℕ → ℕ
large_bytes = put_word (put_word (put_word zeros 0x1000 0x2003) 0x2000 0x3003) 0x3000 0x200083

abbrev dump : Image
dump = record { mapped = 0x40000000; byte = small_bytes }

abbrev large_dump : Image
large_dump = record { mapped = 0x40000000; byte = large_bytes }

dump-IsBytes : IsBytes small_bytes
dump-IsBytes =
    put_word-IsBytes _ _ _
      (put_word-IsBytes _ _ _ (put_word-IsBytes _ _ _ (put_word-IsBytes _ _ _ zeros-IsBytes)))

dump-IsMapped : IsMapped 0x7f0000000000 dump
dump-IsMapped = record { nonzero = omega arith; fits = omega arith }

large_dump-IsMapped : IsMapped 0x7f0000000000 large_dump
large_dump-IsMapped = record { nonzero = omega arith; fits = omega arith }

walk-dump : walk dump 0x1000 0x5123 ≡ some (small 0x4028)
unfolding walk walk_pud walk_pmd entry word put_word
walk-dump = refl

walk-large_dump : walk large_dump 0x1000 0x5123 ≡ some (large 0x200000)
unfolding walk walk_pud walk_pmd entry word put_word
walk-large_dump = refl

clear_page_nx_flag-walk_example :
    clear_page_nx_flag 0x7f0000000000 0x1000 0x5123 dump
    ≡ some (pos 0, write dump 0x4028 (word small_bytes 0x4028 % 2 ^ 63))
clear_page_nx_flag-walk_example =
    clear_page_nx_flag-walk dump-IsMapped 0x1000 0x5123 walk-dump (omega arith)

abbrev kernel_page : Entry
kernel_page = record { frame = 0x7000; key = 0; protection = kernel }

kernel_page-IsEntry : IsEntry kernel_page
kernel_page-IsEntry = record {
  aligned = omega arith;
  in_reach = omega arith;
  key_fits = omega arith;
}

kernel_page_there : word small_bytes 0x4028 ≡ entry_val kernel_page
unfolding word put_word entry_val protection_val
kernel_page_there = refl

clear_page_nx_flag-executable_form_example :
    (m' : Image) × (clear_page_nx_flag 0x7f0000000000 0x1000 0x5123 dump ≡ some (pos 0, m'))
    × (walk m' 0x1000 0x5123 ≡ some (small 0x4028))
    × (word m'.byte 0x4028 ≡ entry_val (record kernel_page { protection = kernel_exec }))
    × (bit_and (word dump.byte 0x4028) pte_pfn_mask ≡ 0x7000)
    × (bit_and (word m'.byte 0x4028) pte_pfn_mask ≡ 0x7000)
clear_page_nx_flag-executable_form_example =
    clear_page_nx_flag-executable_form dump-IsMapped 0x1000 0x5123 kernel_page kernel_exec
      dump-IsBytes refl walk-dump (omega arith) kernel_page-IsEntry kernel_page_there refl

-- The context identifier 0x808; numbers in place of arguments: file 7 is the dump.
main-pcid_example :
    (cr3_to_pgt_pa 0x1808 ≡ 0x1000)
    × (main (λ n. n) (λ _. some dump) 0x7f0000000000 (0 ∷ 7 ∷ 0x1808 ∷ 0x5123 ∷ [])
        ≡ modify_mem_dump
            (some dump)
            0x7f0000000000
            (cr3_to_pgt_pa 0x1808)
            (0x5123 + 0x101 * 2 ^ 39))
main-pcid_example =
    main-pcid (λ n. n) (λ _. some dump) 0x7f0000000000 0x1000 0x101 0 7 0x1808 0x5123 [] refl
      (omega arith) refl (omega arith)

clear_page_nx_flag-large_example :
    (a : ℕ) × (0x200000 ≤ a)
    × (a + 8 ≤ 0x400000)
    × (clear_page_nx_flag 0x7f0000000000 0x1000 0x5123 large_dump
        ≡ some (pos 0, write large_dump a (word large_bytes a % 2 ^ 63)))
clear_page_nx_flag-large_example =
    clear_page_nx_flag-large large_dump-IsMapped 0x1000 0x5123 walk-large_dump (omega arith)

clear_page_nx_flag-Effect_example :
    Effect dump (pos 0) (write dump 0x4028 (word small_bytes 0x4028 % 2 ^ 63))
clear_page_nx_flag-Effect_example =
    clear_page_nx_flag-Effect 0x7f0000000000 0x1000 0x5123 dump clear_page_nx_flag-walk_example

walk-clear_page_nx_flag_example :
    walk (write dump 0x4028 (word small_bytes 0x4028 % 2 ^ 63)) 0x1000 0x6000
    ≡ walk dump 0x1000 0x6000
walk-clear_page_nx_flag_example =
    walk-clear_page_nx_flag 0x7f0000000000 0x1000 0x5123 dump dump-IsBytes
      clear_page_nx_flag-walk_example 0x1000 0x6000 refl

indices_example :
    pgd_index 0xffff888001000123 * 2 ^ 39
      + pud_index 0xffff888001000123 * 2 ^ 30
      + pmd_index 0xffff888001000123 * 2 ^ 21
      + pte_index 0xffff888001000123 * 2 ^ 12
      + 0xffff888001000123 % 2 ^ 12
    ≡ 0xffff888001000123 % 2 ^ 48
indices_example = indices_lem 0xffff888001000123

dump-HasTables : HasTables dump 0x1000 0x5123
unfolding word put_word pgd_offset_pgd pud_offset pmd_offset pgd_page_vaddr pud_page_vaddr
    pmd_page_vaddr pud_pfn_mask pmd_pfn_mask
dump-HasTables = record {
  root = omega arith;
  upper = λ _. omega arith;
  middle = λ _ _. omega arith;
  lower = λ _ _ _. omega arith;
}

modify_mem_dump-exited_example :
    ((m' : Image) × (modify_mem_dump (some dump) 0x7f0000000000 0x1000 0x5123 ≡ exited 0 (some m')))
    × ((rc : ℤ) × (m' : Image) × (clear_page_nx_flag 0x7f0000000000 0x1000 0x5123 dump
          ≡ some (rc, m'))
        × (rc ≢ negsuc 3))
modify_mem_dump-exited_example =
    modify_mem_dump-exited 0x7f0000000000 0x1000 0x5123 dump dump-IsMapped dump-HasTables
      (omega arith)

-- Numbers in place of arguments: file 7 is the dump.
main-walk_example :
    (m' : Image) × (main (λ n. n) (λ _. some dump) 0x7f0000000000 (0 ∷ 7 ∷ 0x1000 ∷ 0x5123 ∷ [])
      ≡ exited 0 (some m'))
    × (word m'.byte 0x4028 ≡ word small_bytes 0x4028 % 2 ^ 63)
    × (word m'.byte tss_at + word small_bytes tss_at / 2 ^ 41 % 2 * 2 ^ 41
        ≡ word small_bytes tss_at)
    × ((a : ℕ)
        → (a < 0x4028) ⊎ (0x4028 + 8 ≤ a)
        → (a < tss_at) ⊎ (tss_at + 8 ≤ a)
        → m'.byte a ≡ small_bytes a)
main-walk_example =
    main-walk (λ n. n) (λ _. some dump) 0 7 0x1000 0x5123 [] refl dump-IsMapped dump-IsBytes
      walk-dump (omega arith) (omega arith) (omega arith)
