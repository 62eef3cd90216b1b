-- ===== src/Memdump/Preserve.antt =====
-- The page walk does not notice what `ClearPageNXFlag` does.
use resume_from_edk2_tooling.Base.{
  ℕ, ◌+◌, ◌*◌, ◌/◌, ◌%◌, ◌^◌, ◌≡◌, refl, arith, Option, none, some, inl, inr, ap, ◌∙◌,
}
use resume_from_edk2_tooling.Base.Int.{ℤ}
use resume_from_edk2_tooling.Memdump.Image.{Image, IsBytes, word}
use resume_from_edk2_tooling.Memdump.Words.{word-put_word_aligned}
use resume_from_edk2_tooling.Memdump.Fields.{frame_4k}
use resume_from_edk2_tooling.Memdump.Walk.{Leaf, entry, walk_pmd, walk_pud, walk, on_entry}
use resume_from_edk2_tooling.Memdump.Clear.{clear_page_nx_flag}
use resume_from_edk2_tooling.Memdump.Effect.{Cleared, Untouched, clear_page_nx_flag-Effect}

-- The walk reads no top bit of an entry, so it finds the same leaves.
SameLow : Image → Image → Type 0
SameLow m m' =
    (m'.mapped ≡ m.mapped)
    × ((a : ℕ) → a % 8 ≡ 0 → word m'.byte a % 2 ^ 63 ≡ word m.byte a % 2 ^ 63)

Cleared-SameLow :
    (m : Image) {rc : ℤ} {m' : Image} → IsBytes m.byte → Cleared m rc m' → SameLow m m'
unfolding SameLow
Cleared-SameLow m {m'} b c = (ap (λ i. i.mapped) c.changed, low)
  where
    low : (a : ℕ) → a % 8 ≡ 0 → word m'.byte a % 2 ^ 63 ≡ word m.byte a % 2 ^ 63
    low a al =
        ap (λ i. word i.byte a % 2 ^ 63) c.changed
        ∙ ground
            (arith, word-put_word_aligned m.byte c.at (word m.byte c.at % 2 ^ 63) a c.aligned al)

Untouched-SameLow : (m : Image) {rc : ℤ} {m' : Image} → Untouched m rc m' → SameLow m m'
unfolding SameLow
Untouched-SameLow m u =
    (ap (λ i. i.mapped) u.unchanged, λ a al. ap (λ i. word i.byte a % 2 ^ 63) u.unchanged)

SameEntry : Option ℕ → Option ℕ → Type 0
SameEntry (some e') (some e) = e' % 2 ^ 63 ≡ e % 2 ^ 63
SameEntry none none = Unit
SameEntry _ _ = ⊥

on_entry-eq :
    (o' o : Option ℕ) (k' k : ℕ → Option Leaf)
    → SameEntry o' o
    → ((e' e : ℕ) → e' % 2 ^ 63 ≡ e % 2 ^ 63 → k' e' ≡ k e)
    → on_entry o' k' ≡ on_entry o k
unfolding SameEntry
on_entry-eq none none k' k s h = refl
on_entry-eq none (some e) k' k s h = absurd s
on_entry-eq (some e') none k' k s h = absurd s
on_entry-eq (some e') (some e) k' k s h = h e' e s

module _ (m m' : Image) (same : SameLow m m') where
  entry-SameEntry : (a : ℕ) → a % 8 ≡ 0 → SameEntry (entry m' a) (entry m a)
  unfolding entry SameEntry SameLow
  entry-SameEntry a al = ground (arith, same.1 a al)

  walk_pmd-eq : (table va : ℕ) → table % 8 ≡ 0 → walk_pmd m' table va ≡ walk_pmd m table va
  unfolding walk_pmd
  walk_pmd-eq table va al =
      on_entry-eq _ _ _ _ (entry-SameEntry (table + 8 * (va / 2 ^ 21 % 512)) (omega arith))
        (λ e' e low. ground arith)

  walk_pud-eq : (table va : ℕ) → table % 8 ≡ 0 → walk_pud m' table va ≡ walk_pud m table va
  unfolding walk_pud
  walk_pud-eq table va al =
      on_entry-eq _ _ _ _ (entry-SameEntry (table + 8 * (va / 2 ^ 30 % 512)) (omega arith))
        (λ e' e low. ground (arith, walk_pmd-eq (frame_4k e) va (omega arith)))

  walk-eq : (base va : ℕ) → base % 8 ≡ 0 → walk m' base va ≡ walk m base va
  unfolding walk
  walk-eq base va al =
      on_entry-eq _ _ _ _ (entry-SameEntry (base + 8 * (va / 2 ^ 39 % 512)) (omega arith))
        (λ e' e low. ground (arith, walk_pud-eq (frame_4k e) va (omega arith)))

-- Whatever tables it is given, after a run of `ClearPageNXFlag` that makes no access outside a
-- mapping of bytes, successful or not, the walk of every address from every aligned base finds the
-- same leaf in the dump as before.
pub walk-clear_page_nx_flag :
    (physmem base va : ℕ) (m : Image) {rc : ℤ} {m' : Image}
    → IsBytes m.byte
    → clear_page_nx_flag physmem base va m ≡ some (rc, m')
    → (table other : ℕ) → table % 8 ≡ 0
    → walk m' table other ≡ walk m table other
walk-clear_page_nx_flag physmem base va m b h table other al =
    elim (clear_page_nx_flag-Effect physmem base va m h) [
      | inl u ↦ walk-eq m _ (Untouched-SameLow m u) table other al
      | inr c ↦ walk-eq m _ (Cleared-SameLow m b c) table other al
    ]
