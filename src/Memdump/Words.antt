-- ===== src/Memdump/Words.antt =====
-- An 8-byte store and the loads after it, on the bytes of the dump.
use native.Mathlib.Decide.{ℕ_discrete}
use resume_from_edk2_tooling.Base.{
  ℕ, ◌+◌, ◌-◌, ◌/◌, ◌%◌, ◌^◌, ◌≤◌, ◌<◌, ◌≡◌, ap, sym, ◌∙◌, ◌≢◌, ◌⊎◌, inl, inr, arith,
}
use resume_from_edk2_tooling.Memdump.Image.{IsBytes, word, put_word}

-- The byte at distance `d` into the word that was written.
put_word_inside : (f : ℕ → ℕ) (a v d : ℕ) → d < 8 → put_word f a v (a + d) ≡ v / 256 ^ d % 256
unfolding put_word
put_word_inside f a v d h = let gap : a + d - a ≡ d = omega arith in rw gap (ground arith)

put_word_first : (f : ℕ → ℕ) (a v : ℕ) → put_word f a v a ≡ v % 256
put_word_first f a v =
    let start : a + 0 ≡ a = omega arith in
    ap (put_word f a v) (sym start) ∙ put_word_inside f a v 0 (omega arith) ∙ omega arith

pub put_word_outside : (f : ℕ → ℕ) (a v b : ℕ) → (b < a) ⊎ (a + 8 ≤ b) → put_word f a v b ≡ f b
unfolding put_word
put_word_outside f a v b h = ground arith

pub word-put_word_self : (f : ℕ → ℕ) (a v : ℕ) → v < 2 ^ 64 → word (put_word f a v) a ≡ v
unfolding word
word-put_word_self f a v h = omega (
  arith,
  put_word_first f a v,
  put_word_inside f a v 1 (omega arith),
  put_word_inside f a v 2 (omega arith),
  put_word_inside f a v 3 (omega arith),
  put_word_inside f a v 4 (omega arith),
  put_word_inside f a v 5 (omega arith),
  put_word_inside f a v 6 (omega arith),
  put_word_inside f a v 7 (omega arith),
)

pub word-put_word_apart :
    (f : ℕ → ℕ) (a v b : ℕ) → (b + 8 ≤ a) ⊎ (a + 8 ≤ b) → word (put_word f a v) b ≡ word f b
unfolding word
word-put_word_apart f a v b h = simp (
  put_word_outside f a v b (omega arith),
  put_word_outside f a v (b + 1) (omega arith),
  put_word_outside f a v (b + 2) (omega arith),
  put_word_outside f a v (b + 3) (omega arith),
  put_word_outside f a v (b + 4) (omega arith),
  put_word_outside f a v (b + 5) (omega arith),
  put_word_outside f a v (b + 6) (omega arith),
  put_word_outside f a v (b + 7) (omega arith),
)

pub word-lt : (f : ℕ → ℕ) (a : ℕ) → IsBytes f → word f a < 2 ^ 64
unfolding word
word-lt f a h =
    omega (arith, h a, h (a + 1), h (a + 2), h (a + 3), h (a + 4), h (a + 5), h (a + 6), h (a + 7))

pub put_word-IsBytes : (f : ℕ → ℕ) (a v : ℕ) → IsBytes f → IsBytes (put_word f a v)
unfolding put_word
put_word-IsBytes f a v h b = ground (arith, h b)

aligned_apart : (a b : ℕ) → a % 8 ≡ 0 → b % 8 ≡ 0 → b ≢ a → (b + 8 ≤ a) ⊎ (a + 8 ≤ b)
aligned_apart a b ha hb ne = grind arith

-- Words at multiples of eight are the same or apart.
pub word-put_word_aligned :
    (f : ℕ → ℕ) (a v b : ℕ)
    → a % 8 ≡ 0
    → b % 8 ≡ 0
    → v < 2 ^ 64
    → (word (put_word f a v) b ≡ word f b) ⊎ ((b ≡ a) × (word (put_word f a v) b ≡ v))
word-put_word_aligned f a v b ha hb hv = elim (ℕ_discrete b a) [
  | yes same ↦ inr (same, ap (word (put_word f a v)) same ∙ word-put_word_self f a v hv)
  | no other ↦ inl (word-put_word_apart f a v b (aligned_apart a b ha hb other))
]
