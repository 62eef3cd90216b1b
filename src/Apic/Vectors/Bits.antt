-- ===== src/Apic/Vectors/Bits.antt =====
-- Which interrupts the handlers acknowledge, and which reasons they name.
use resume_from_edk2_tooling.Base.{
  ℕ, zero, suc, ◌+◌, ◌*◌, ◌/◌, ◌%◌, ◌^◌, ◌≤◌, ◌<◌, ◌≡◌, refl, ap, ◌∙◌, sym, arith, ◌==◌, not, ◌&&◌,
  ltb, bit_and, if◌then◌else◌, Bool, List, [], ◌∷◌, Bool-cases, inl, inr, ◌-◌,
}
use resume_from_edk2_tooling.Base.Bits.{bit_and_low, bit_and_field, bit_and_complement}
use resume_from_edk2_tooling.Apic.Device.{Device, ApicDef, only, esr, isr, lapic_get_maxlvt}
use resume_from_edk2_tooling.Apic.Vectors.{
  reasons, isr_offset, spurious_interrupt, sysvec_error_interrupt,
}
use native.Mathlib.Nat.{one-le-pow}

-- The numbers of the bits of `v` that are set, from `i` on.
abbrev pub bits_of : (n v i : ℕ) → List ℕ
bits_of zero v i = []
bits_of (suc n) v i =
    if v % 2 == 1 then i ∷ bits_of n (v / 2) (i + 1) else bits_of n (v / 2) (i + 1)

bits_of-zero : (n i : ℕ) → bits_of n 0 i ≡ []
bits_of-zero zero i = refl
bits_of-zero (suc n) i = bits_of-zero n (i + 1)

low_bit : (v : ℕ) → bit_and v 1 ≡ v % 2
low_bit v = bit_and_low 1 v

pub reasons-bits_of : (n v i : ℕ) → reasons n v i ≡ bits_of n v i
unfolding reasons
reasons-bits_of zero v i = refl
reasons-bits_of (suc n) zero i = sym (bits_of-zero (suc n) i)
reasons-bits_of (suc n) (suc w) i =
    ground (arith, low_bit (suc w), reasons-bits_of n (suc w / 2) (i + 1))

-- Is the vector's bit set in the set of interrupts in service?
abbrev pub bit_at : (w k : ℕ) → Bool
bit_at w k = w / 2 ^ k % 2 == 1

one_bit : (x p : ℕ) → 1 ≤ p → not (x % 2 * p == 0) ≡ (x % 2 == 1)
one_bit x p h = elim (Bool-cases (x % 2 == 1)) [
  | inl odd ↦ rw odd (ground (arith, times (x % 2) 1 p (ground (arith, odd)), h))
  | inr even ↦ rw even (ground (arith, times (x % 2) 0 p (ground (arith, even))))
]
  where
    times : (a b q : ℕ) → a ≡ b → a * q ≡ b * q
    times a b q e = ap (λ t. t * q) e

test_bit : (w k : ℕ) → not (bit_and w (2 ^ k) == 0) ≡ bit_at w k
test_bit w k =
    let single : 2 ^ k ≡ (2 ^ 1 - 1) * 2 ^ k = omega arith in
    ap (λ m. not (m == 0)) (ap (bit_and w) single ∙ bit_and_field k 1 w)
    ∙ one_bit (w / 2 ^ k) (2 ^ k) (one-le-pow k 2 (omega arith))

module _ (d : Device) (def : ApicDef) (ack : d.State → d.State) where
  word_place : (vector : ℕ) → vector < 2 ^ 32 → isr_offset d def ack vector / 0x10 ≡ vector / 32
  word_place vector h =
      omega (arith, bit_and_complement 32 vector 0x1f (omega arith), bit_and_low 5 vector)

  -- An interrupt on an unused vector, a 32-bit number, is acknowledged exactly if its bit, in words
  -- of 32, is set in the in-service register, and never on the spurious vector itself.
  pub spurious_interrupt_lem :
      (vector : ℕ) (s : d.State)
      → vector < 2 ^ 32
      → spurious_interrupt d def ack vector s ≡ (
          if not (vector == def.spurious_apic_vector)
            && bit_at (d.read (isr (vector / 32)) s) (vector % 32)
          then ack s
          else s)
  unfolding spurious_interrupt
  spurious_interrupt_lem vector s h =
      rw
        (
          spurious_interrupt,
          word_place vector h,
          bit_and_low 5 vector,
          test_bit (d.read (isr (vector / 32)) s) (vector % 32),
        )
        (ground arith)

  -- An APIC error is counted and acknowledged, and the reasons that are named are the numbers of
  -- the bits that are set among the lowest eight of the error status, in order.
  pub sysvec_error_interrupt_lem :
      (count : ℕ) (s : d.State)
      → let t = only (ltb 3 (lapic_get_maxlvt d def s)) (d.write esr 0) s in
        sysvec_error_interrupt d def ack count s
        ≡ (bits_of 8 (d.read esr t % 2 ^ 8) 0, count + 1, ack t)
  unfolding sysvec_error_interrupt
  sysvec_error_interrupt_lem count s =
      let t : d.State = only (ltb 3 (lapic_get_maxlvt d def s)) (d.write esr 0) s in
      ap (λ l. (l, count + 1, ack t))
        (reasons-bits_of 8 (bit_and (d.read esr t) 0xff) 0
          ∙ ap (λ v. bits_of 8 v 0) (bit_and_low 8 (d.read esr t)))
