-- ===== src/Memdump/Whole.antt =====
-- `modify_mem_dump` and `main` as a whole.
use resume_from_edk2_tooling.Base.{
  ℕ, ◌+◌, ◌*◌, ◌/◌, ◌%◌, ◌^◌, ◌≤◌, ◌<◌, ◌≡◌, ◌∙◌, ap, arith, some, List, [], ◌∷◌, ◌⊎◌, refl,
  bit_and, Option, List, length, ◌∷◌,
}
use resume_from_edk2_tooling.Base.Int.{pos}
use resume_from_edk2_tooling.Memdump.Walk.{walk, small}
use resume_from_edk2_tooling.Memdump.Clear.{clear_page_nx_flag}
use resume_from_edk2_tooling.Memdump.Paging.{not64, shl64}
use resume_from_edk2_tooling.Memdump.Fields.{clear_bit41_lem}
use resume_from_edk2_tooling.Memdump.Program.{
  gdt_phys_addr, tss_offset, clear_tss_busy, modify_image, main, run_arguments, crashed,
}
use resume_from_edk2_tooling.Memdump.Image.{Image, IsBytes, word, write, ◌>>=◌}
use resume_from_edk2_tooling.Memdump.Words.{
  put_word_outside, word-put_word_self, word-put_word_apart, word-lt,
}
use resume_from_edk2_tooling.Memdump.Refine.{
  IsMapped, load-inside, store-inside, clear_page_nx_flag-walk,
}
use resume_from_edk2_tooling.Memdump.Preserve.{walk-clear_page_nx_flag}

abbrev pub tss_at : ℕ
tss_at = gdt_phys_addr + tss_offset

abbrev pub tss_cleared : ℕ → ℕ
tss_cleared w = bit_and w (not64 (shl64 1 41))

clear_tss_busy-write :
    (m : Image)
    → tss_at + 8 ≤ m.mapped
    → clear_tss_busy m ≡ some (tt, write m tss_at (tss_cleared (word m.byte tss_at)))
unfolding clear_tss_busy
clear_tss_busy-write m h =
    rw (◌>>=◌, load-inside m tss_at h, store-inside m tss_at (tss_cleared (word m.byte tss_at)) h)

-- On a dump of bytes, mapped below the end of the address space and not at 0, whose walk of `va`
-- from an aligned base ends in the entry of a 4 KB page inside the mapping, `ClearPageNXFlag`
-- returns 0; the walk then finds the same entry, and its no-execute bit is clear.
pub clear_page_nx_flag-executable :
    {physmem : ℕ} {m : Image} (at : IsMapped physmem m) (base va : ℕ) {slot : ℕ}
    → IsBytes m.byte
    → base % 8 ≡ 0
    → walk m base va ≡ some (small slot)
    → slot + 8 ≤ m.mapped
    → (m' : Image) × (clear_page_nx_flag physmem base va m ≡ some (pos 0, m'))
      × (walk m' base va ≡ some (small slot))
      × (word m'.byte slot / 2 ^ 63 ≡ 0)
clear_page_nx_flag-executable {physmem} {m} at base va {slot} b al h fits =
    let ran = clear_page_nx_flag-walk at base va h fits in
    (
      write m slot (word m.byte slot % 2 ^ 63),
      ran,
      walk-clear_page_nx_flag physmem base va m b ran base va al ∙ h,
      omega (arith, word-put_word_self m.byte slot (word m.byte slot % 2 ^ 63) (omega arith)),
    )

-- On a dump of bytes, mapped below the end of the address space and not at 0, whose walk of `va`
-- ends in the entry of a 4 KB page, with this entry and the TSS descriptor apart and inside the
-- mapping, what `modify_mem_dump` does to the dump runs to its end. It clears bit 63 of the entry
-- and bit 41 of the TSS descriptor, keeps their other bits, and changes no other byte.
pub modify_image-walk :
    {physmem : ℕ} {m : Image} (at : IsMapped physmem m) (cr3 va : ℕ) {slot : ℕ}
    → IsBytes m.byte
    → walk m cr3 va ≡ some (small slot)
    → slot + 8 ≤ m.mapped
    → tss_at + 8 ≤ m.mapped
    → (slot + 8 ≤ tss_at) ⊎ (tss_at + 8 ≤ slot)
    → (m' : Image) × (modify_image physmem cr3 va m ≡ some (tt, m'))
      × (word m'.byte slot ≡ word m.byte slot % 2 ^ 63)
      × (word m'.byte tss_at + word m.byte tss_at / 2 ^ 41 % 2 * 2 ^ 41 ≡ word m.byte tss_at)
      × ((a : ℕ)
          → (a < slot) ⊎ (slot + 8 ≤ a)
          → (a < tss_at) ⊎ (tss_at + 8 ≤ a)
          → m'.byte a ≡ m.byte a)
unfolding modify_image
modify_image-walk {physmem} {m} at cr3 va {slot} b h fits tss apart =
    let v = word m.byte slot % 2 ^ 63 in
    let m1 : Image = write m slot v in
    let w = tss_cleared (word m1.byte tss_at) in
    let old : word m1.byte tss_at ≡ word m.byte tss_at =
      word-put_word_apart m.byte slot v tss_at (omega arith) in
    let top : word m.byte tss_at < 2 ^ 64 = word-lt m.byte tss_at b in
    let kept : w + word m.byte tss_at / 2 ^ 41 % 2 * 2 ^ 41 ≡ word m.byte tss_at =
      ap (λ t. tss_cleared t + word m.byte tss_at / 2 ^ 41 % 2 * 2 ^ 41) old
      ∙ clear_bit41_lem (word m.byte tss_at) top in
    let small_w : w < 2 ^ 64 = omega (arith, kept, top) in
    (
      write m1 tss_at w,
      rw (◌>>=◌, clear_page_nx_flag-walk at cr3 va h fits, clear_tss_busy-write m1 tss),
      word-put_word_apart m1.byte tss_at w slot apart
          ∙ word-put_word_self m.byte slot v (omega arith),
      ap (λ t. t + word m.byte tss_at / 2 ^ 41 % 2 * 2 ^ 41)
            (word-put_word_self m1.byte tss_at w small_w)
          ∙ kept,
      λ a p q. put_word_outside m1.byte tss_at w a q ∙ put_word_outside m.byte slot v a p,
    )

-- Called with a file name but no page-table root or no address (`argc` is 2 or 3), `main` crashes:
-- its guard lets two arguments pass, and it reads `argv[2]` and `argv[3]`.
pub main_missing_arguments :
    {Arg : Type 0} (strtoul : Arg → ℕ) (fopen : Arg → Option Image) (physmem : ℕ) (argv : List Arg)
    → 2 ≤ length argv
    → length argv < 4
    → main strtoul fopen physmem argv ≡ crashed
unfolding main run_arguments
main_missing_arguments strtoul fopen physmem (a ∷ []) p q = absurd (omega arith)
main_missing_arguments strtoul fopen physmem (a ∷ b ∷ []) p q = refl
main_missing_arguments strtoul fopen physmem (a ∷ b ∷ c ∷ []) p q = refl
main_missing_arguments strtoul fopen physmem (a ∷ b ∷ c ∷ d ∷ r) p q = absurd (omega arith)
main_missing_arguments strtoul fopen physmem [] p q = absurd (omega arith)
