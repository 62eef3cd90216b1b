-- ===== src/Apic/Pending.antt =====
-- `apic_check_and_ack` and `apic_pending_intr_clear` of linux/arch/x86/kernel/apic/apic.c. The
-- end-of-interrupt that `ack_APIC_irq` sends is an argument: what it does is the hardware's.
pub mod Rounds
use resume_from_edk2_tooling.Base.{
  ℕ, zero, suc, ◌+◌, ◌*◌, ◌/◌, ◌%◌, ◌^◌, ◌==◌, Bool, true, false, not, ◌&&◌, if◌then◌else◌, List,
  [], ◌∷◌,
}
use resume_from_edk2_tooling.Apic.Device.{Reg, Device, irr, isr}

-- APIC_IR_REGS, which is APIC_ISR_NR: eight words of 32 bits.
abbrev pub ir_regs : ℕ
ir_regs = 8

-- The words 0, ..., n - 1 of a set, the last one first.
unfoldable pub read_regs : (d : Device) → (ℕ → Reg) → ℕ → d.State → List ℕ
read_regs d r zero s = []
read_regs d r (suc n) s = d.read (r n) s % 2 ^ 32 ∷ read_regs d r n s

unfoldable pub bitmap_empty : List ℕ → Bool
bitmap_empty [] = true
bitmap_empty (w ∷ rest) = w == 0 && bitmap_empty rest

-- The number of bits that are set in the lowest `n` bits of a word.
unfoldable pub weight : (n w : ℕ) → ℕ
weight zero w = 0
weight (suc n) w = w % 2 + weight n (w / 2)

unfoldable pub weights : List ℕ → ℕ
weights [] = 0
weights (w ∷ rest) = weight 32 w + weights rest

unfoldable pub repeat {ℓ} : {S : Type ℓ} → ℕ → (S → S) → S → S
repeat zero f s = s
repeat (suc n) f s = repeat n f (f s)

module _ (d : Device) (ack_apic_irq : d.State → d.State) where
  -- Is another round needed? One acknowledgement for each bit of the ISR.
  unfoldable pub apic_check_and_ack : d.State → Bool × d.State
  apic_check_and_ack s =
      let irr_regs = read_regs d irr ir_regs s in
      let isr_regs = read_regs d isr ir_regs s in
      if not (bitmap_empty isr_regs)
      then (true, repeat (weights isr_regs) ack_apic_irq s)
      else (not (bitmap_empty irr_regs), s)

  unfoldable pub rounds : ℕ → d.State → d.State
  rounds zero s = s
  rounds (suc n) s =
      let round = apic_check_and_ack s in
      let rest = rounds n round.1 in if not round.0 then round.1 else rest

  abbrev pub apic_pending_intr_clear : d.State → d.State
  apic_pending_intr_clear s = rounds 512 s
