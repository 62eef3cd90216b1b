-- ===== src/Memdump/Walk.antt =====
-- The specification: the four-level page walk of an x86-64 processor, from the architecture's
-- description and in arithmetic, over the same bytes.
use resume_from_edk2_tooling.Base.{
  ℕ, ◌+◌, ◌*◌, ◌/◌, ◌%◌, ◌^◌, ◌==◌, leb, if◌then◌else◌, Option, none, some, ◌&&◌,
}
use resume_from_edk2_tooling.Memdump.Image.{Image, word}
use resume_from_edk2_tooling.Memdump.Fields.{frame_4k, frame_2m, frame_1g}

-- What maps an address: a page of 1 GB or of 2 MB at its frame, or the entry of a 4 KB page at its
-- place in memory.
pub data Leaf : Type 0 where
  huge : ℕ → Leaf
  large : ℕ → Leaf
  small : ℕ → Leaf

-- A present entry.
unfoldable pub entry : Image → ℕ → Option ℕ
entry m a = if leb (a + 8) m.mapped && word m.byte a % 2 == 1 then some (word m.byte a) else none

abbrev pub on_entry : Option ℕ → (ℕ → Option Leaf) → Option Leaf
on_entry none next = none
on_entry (some e) next = next e

unfoldable pub walk_pmd : Image → ℕ → ℕ → Option Leaf
walk_pmd m table va = on_entry (entry m (table + 8 * (va / 2 ^ 21 % 512))) λ e.
    if e / 2 ^ 7 % 2 == 1
    then some (large (frame_2m e))
    else some (small (frame_4k e + 8 * (va / 2 ^ 12 % 512)))

unfoldable pub walk_pud : Image → ℕ → ℕ → Option Leaf
walk_pud m table va =
    on_entry (entry m (table + 8 * (va / 2 ^ 30 % 512)))
      λ e. if e / 2 ^ 7 % 2 == 1 then some (huge (frame_1g e)) else walk_pmd m (frame_4k e) va

unfoldable pub walk : Image → (base va : ℕ) → Option Leaf
walk m base va = on_entry (entry m (base + 8 * (va / 2 ^ 39 % 512))) λ e. walk_pud m (frame_4k e) va
