-- ===== src/Apic/Pending/Rounds.antt =====
-- 512 rounds are enough for `apic_pending_intr_clear`.
use resume_from_edk2_tooling.Base.{
  ℕ, zero, suc, ◌+◌, ◌*◌, ◌/◌, ◌%◌, ◌^◌, ◌==◌, ◌≤◌, ◌<◌, ◌≡◌, refl, Bool, true, false, not, arith,
  Bool-cases, inl, inr, ap, ◌∙◌,
}
use resume_from_edk2_tooling.Apic.Device.{Reg, Device, irr, isr, if_same}
use resume_from_edk2_tooling.Apic.Pending.{
  ir_regs, read_regs, bitmap_empty, weight, weights, repeat, apic_check_and_ack, rounds,
  apic_pending_intr_clear,
}

half : (n : ℕ) → 2 ^ suc n ≡ 2 * 2 ^ n
half n = omega arith

pub weight_pos : (n w : ℕ) → w < 2 ^ n → (w == 0) ≡ false → 1 ≤ weight n w
unfolding weight
weight_pos zero w small pos = ground arith
weight_pos (suc n) w small pos = elim (Bool-cases (w / 2 == 0)) [
  | inl last ↦ ground (arith)
  | inr more ↦ omega (arith, weight_pos n (w / 2) (omega (arith, half n)) more)
]

weight_le : (n w : ℕ) → weight n w ≤ n
unfolding weight
weight_le zero w = ground arith
weight_le (suc n) w = omega (arith, weight_le n (w / 2))

pub weights_pos :
    (d : Device) (r : ℕ → Reg) (n : ℕ) (s : d.State)
    → bitmap_empty (read_regs d r n s) ≡ false
    → 1 ≤ weights (read_regs d r n s)
unfolding read_regs bitmap_empty weights
weights_pos d r zero s h = cc
weights_pos d r (suc n) s h = elim (Bool-cases (d.read (r n) s % 2 ^ 32 == 0)) [
  | inl empty ↦ omega (arith, weights_pos d r n s (ground (arith, empty, h)))
  | inr full ↦ omega (arith, weight_pos 32 (d.read (r n) s % 2 ^ 32) (omega arith) full)
]

pub weights_le :
    (d : Device) (r : ℕ → Reg) (n : ℕ) (s : d.State) → weights (read_regs d r n s) ≤ 32 * n
unfolding read_regs weights
weights_le d r zero s = ground arith
weights_le d r (suc n) s = omega (arith, weight_le 32 (d.read (r n) s % 2 ^ 32), weights_le d r n s)

-- Is an interrupt in service?
abbrev pub in_service : (d : Device) → d.State → Bool
in_service d s = not (bitmap_empty (read_regs d isr ir_regs s))

-- The interrupts that are requested or in service.
abbrev pub pending : (d : Device) → d.State → ℕ
pending d s = weights (read_regs d irr ir_regs s) + weights (read_regs d isr ir_regs s)

-- An end-of-interrupt takes the interrupt of the highest priority out of service, and no new one
-- is requested: one that was requested may enter service.
abbrev pub Retires : (d : Device) → (d.State → d.State) → Type 0
Retires d ack =
    (s : d.State)
    → (pending d (ack s) ≤ pending d s) × (in_service d s ≡ true → pending d (ack s) < pending d s)

pub not-true : (b : Bool) → not b ≡ true → b ≡ false
not-true true h = cc
not-true false h = refl

module _ (d : Device) (ack : d.State → d.State) where
  repeat_le : (n : ℕ) (s : d.State) → Retires d ack → pending d (repeat n ack s) ≤ pending d s
  unfolding repeat
  repeat_le zero s h = ground arith
  repeat_le (suc n) s h = omega (arith, repeat_le n (ack s) h, (h s).0)

  repeat_lt :
      (n : ℕ) (s : d.State)
      → Retires d ack
      → 1 ≤ n
      → in_service d s ≡ true
      → pending d (repeat n ack s) < pending d s
  unfolding repeat
  repeat_lt zero s h pos busy = absurd (omega arith)
  repeat_lt (suc n) s h pos busy = omega (arith, repeat_le n (ack s) h, (h s).1 busy)

  -- With nothing in service a round changes nothing.
  rounds_quiet : (n : ℕ) (s : d.State) → in_service d s ≡ false → rounds d ack n s ≡ s
  unfolding rounds apic_check_and_ack
  rounds_quiet zero s quiet = refl
  rounds_quiet (suc n) s quiet = rw quiet (rw (rounds_quiet n s quiet) (if_same _ s))

  rounds_busy :
      (n : ℕ) (s : d.State)
      → in_service d s ≡ true
      → rounds d ack (suc n) s ≡ rounds d ack n (repeat (weights (read_regs d isr ir_regs s)) ack s)
  unfolding rounds apic_check_and_ack
  rounds_busy n s busy = rw busy refl

  abbrev acked : d.State → d.State
  acked s = repeat (weights (read_regs d isr ir_regs s)) ack s

  acked_lt :
      (s : d.State) → Retires d ack → in_service d s ≡ true → pending d (acked s) < pending d s
  acked_lt s h busy =
      repeat_lt (weights (read_regs d isr ir_regs s)) s h
        (weights_pos d isr ir_regs s (not-true (bitmap_empty (read_regs d isr ir_regs s)) busy))
        busy

  rounds_enough :
      (n : ℕ) (s : d.State)
      → Retires d ack
      → pending d s ≤ n
      → in_service d (rounds d ack n s) ≡ false
  rounds_enough zero s h le = elim (Bool-cases (in_service d s)) [
    | inl busy ↦ absurd (omega (arith, acked_lt s h busy, le))
    | inr quiet ↦ ap (in_service d) (rounds_quiet zero s quiet) ∙ quiet
  ]
  rounds_enough (suc n) s h le = elim (Bool-cases (in_service d s)) [
    | inl busy ↦
        ap (in_service d) (rounds_busy n s busy)
        ∙ rounds_enough n (acked s) h (omega (arith, acked_lt s h busy, le))
    | inr quiet ↦ ap (in_service d) (rounds_quiet (suc n) s quiet) ∙ quiet
  ]

  -- If an end-of-interrupt adds no pending interrupt, and retires one where any is in service,
  -- `apic_pending_intr_clear` leaves none in service: its 512 rounds are enough.
  pub apic_pending_intr_clear_enough :
      (s : d.State) → Retires d ack → in_service d (apic_pending_intr_clear d ack s) ≡ false
  apic_pending_intr_clear_enough s h =
      rounds_enough 512 s h (omega (arith, weights_le d irr 8 s, weights_le d isr 8 s))
