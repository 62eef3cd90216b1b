-- ===== src/Memdump/Flags/Protected.antt =====
-- What `ClearPageNXFlag` makes of an entry with one of the kernel's protections.
use resume_from_edk2_tooling.Base.{
  ℕ, ◌+◌, ◌*◌, ◌%◌, ◌^◌, ◌≤◌, ◌<◌, ◌≡◌, ap, ◌∙◌, arith, Option, none, some, bit_and,
}
use resume_from_edk2_tooling.Base.Int.{pos}
use resume_from_edk2_tooling.Base.Bits.{bit_and_field}
use resume_from_edk2_tooling.Memdump.Image.{Image, IsBytes, word, write}
use resume_from_edk2_tooling.Memdump.Walk.{walk, small}
use resume_from_edk2_tooling.Memdump.Words.{word-put_word_self}
use resume_from_edk2_tooling.Memdump.Paging.{pte_pfn_mask}
use resume_from_edk2_tooling.Memdump.Clear.{clear_page_nx_flag}
use resume_from_edk2_tooling.Memdump.Refine.{IsMapped, clear_page_nx_flag-walk}
use resume_from_edk2_tooling.Memdump.Preserve.{walk-clear_page_nx_flag}
use resume_from_edk2_tooling.Memdump.Flags.{
  Protection, page_none, shared, shared_exec, copy_noexec, copy_exec, copy, readonly, readonly_exec,
  kernel, kernel_exec, kernel_ro, kernel_rx, kernel_vvar, kernel_large, kernel_large_exec,
  protection_val, page_bit_pkey_bit0,
}

-- The protection that the names pair with this one to allow execution; `__PAGE_KERNEL_VVAR` has no
-- partner.
abbrev pub executable : Protection → Option Protection
executable shared = some shared_exec
executable copy_noexec = some copy_exec
executable copy = some copy_exec
executable readonly = some readonly_exec
executable kernel = some kernel_exec
executable kernel_ro = some kernel_rx
executable kernel_large = some kernel_large_exec
executable kernel_vvar = none
executable p = some p

-- An entry for the page at `frame` with a protection key.
pub record Entry : Type 0 where
  pub frame : ℕ
  pub key : ℕ
  pub protection : Protection

pub record IsEntry (e : Entry) : Type 0 where
  pub aligned : e.frame % 4096 ≡ 0
  pub in_reach : e.frame < 2 ^ 52
  pub key_fits : e.key < 16

unfoldable pub entry_val : Entry → ℕ
entry_val e = e.frame + e.key * 2 ^ page_bit_pkey_bit0 + protection_val e.protection

val_or : ℕ → Option Protection → ℕ
val_or v none = v
val_or v (some p) = protection_val p

-- The pairs of names differ in the NX bit alone.
protection_val-executable :
    (p q : Protection) → executable p ≡ some q → protection_val p % 2 ^ 63 ≡ protection_val q
unfolding protection_val val_or
protection_val-executable page_none q h = ap (val_or (protection_val page_none % 2 ^ 63)) h
protection_val-executable p q h = ap (val_or (protection_val p % 2 ^ 63)) h

protection_val-parts :
    (p : Protection) → (protection_val p % 2 ^ 63 < 2 ^ 12) × (protection_val p < 2 ^ 64)
unfolding protection_val
protection_val-parts page_none = (omega arith, omega arith)
protection_val-parts p = (omega arith, omega arith)

-- Clearing bit 63 of an entry keeps its key and changes its protection.
entry_val-executable :
    (e : Entry) (q : Protection)
    → IsEntry e
    → executable e.protection ≡ some q
    → entry_val e % 2 ^ 63 ≡ entry_val (record e { protection = q })
unfolding entry_val
entry_val-executable e q h pair =
    let parts = protection_val-parts e.protection in
    omega (
      arith,
      h.aligned,
      h.in_reach,
      h.key_fits,
      parts.0,
      parts.1,
      protection_val-executable e.protection q pair,
    )

-- The mask of the address finds the frame, whatever the key and the protection.
entry_val-frame : (e : Entry) → IsEntry e → bit_and (entry_val e) pte_pfn_mask ≡ e.frame
unfolding entry_val
entry_val-frame e h =
    let parts = protection_val-parts e.protection in
    let v : ℕ = e.frame + e.key * 2 ^ page_bit_pkey_bit0 + protection_val e.protection in
    omega (arith, bit_and_field 12 40 v, h.aligned, h.in_reach, h.key_fits, parts.0, parts.1)

-- On a dump of bytes, mapped below the end of the address space and not at 0, whose walk of `va`
-- from an aligned base ends in an entry inside the mapping that holds an aligned frame below 2^52,
-- a protection key and one of the kernel's protections other than `__PAGE_KERNEL_VVAR`:
-- `ClearPageNXFlag` returns 0, and the walk then ends in the same place, in the entry with the same
-- key and the protection that the kernel names the executable form of the old one. The mask
-- `PTE_PFN_MASK` finds the same frame in both.
pub clear_page_nx_flag-executable_form :
    {physmem : ℕ} {m : Image} (at : IsMapped physmem m) (base va : ℕ) {slot : ℕ} (e : Entry)
    (q : Protection)
    → IsBytes m.byte
    → base % 8 ≡ 0
    → walk m base va ≡ some (small slot)
    → slot + 8 ≤ m.mapped
    → IsEntry e
    → word m.byte slot ≡ entry_val e
    → executable e.protection ≡ some q
    → (m' : Image) × (clear_page_nx_flag physmem base va m ≡ some (pos 0, m'))
      × (walk m' base va ≡ some (small slot))
      × (word m'.byte slot ≡ entry_val (record e { protection = q }))
      × (bit_and (word m.byte slot) pte_pfn_mask ≡ e.frame)
      × (bit_and (word m'.byte slot) pte_pfn_mask ≡ e.frame)
clear_page_nx_flag-executable_form {physmem} {m} at base va {slot} e q b al h fits ok holds pair =
    let ran = clear_page_nx_flag-walk at base va h fits in
    let after : word (write m slot (word m.byte slot % 2 ^ 63)).byte slot
        ≡ entry_val (record e { protection = q }) =
      word-put_word_self m.byte slot (word m.byte slot % 2 ^ 63) (omega arith)
      ∙ ap (λ t. t % 2 ^ 63) holds
      ∙ entry_val-executable e q ok pair in
    let still : IsEntry (record e { protection = q }) = record {
      aligned = ok.aligned;
      in_reach = ok.in_reach;
      key_fits = ok.key_fits;
    } in
    (
      write m slot (word m.byte slot % 2 ^ 63),
      ran,
      walk-clear_page_nx_flag physmem base va m b ran base va al ∙ h,
      after,
      ap (λ t. bit_and t pte_pfn_mask) holds ∙ entry_val-frame e ok,
      ap (λ t. bit_and t pte_pfn_mask) after ∙ entry_val-frame _ still,
    )
