-- ===== src/Apic/Vectors.antt =====
-- The handlers of the spurious vectors and of the error vector in
-- linux/arch/x86/kernel/apic/apic.c: `spurious_interrupt` and `sysvec_error_interrupt`.
pub mod Bits
use resume_from_edk2_tooling.Base.{
  ℕ, zero, suc, ◌+◌, ◌*◌, ◌/◌, ◌%◌, ◌^◌, ◌==◌, ltb, not, bit_and, if◌then◌else◌, List, [], ◌∷◌,
}
use resume_from_edk2_tooling.Apic.Device.{Device, ApicDef, not32, only, esr, isr, lapic_get_maxlvt}

-- The loop over the bits of `v`: which of the eight reasons are printed.
unfoldable pub reasons : (left v i : ℕ) → List ℕ
reasons zero v i = []
reasons (suc left) v i =
    let rest = reasons left (v / 2) (i + 1) in
    if v == 0 then [] else (if not (bit_and v 1 == 0) then i ∷ rest else rest)

module _ (d : Device) (def : ApicDef) (ack_apic_irq : d.State → d.State) where
  -- The distance of a vector's word from APIC_ISR; the words are 0x10 apart.
  abbrev pub isr_offset : ℕ → ℕ
  isr_offset vector = bit_and vector (not32 0x1f) / 2

  unfoldable pub spurious_interrupt : (vector : ℕ) → d.State → d.State
  spurious_interrupt vector s =
      let v = d.read (isr (isr_offset vector / 0x10)) s in
      if vector == def.spurious_apic_vector
      then s
      else (if not (bit_and v (2 ^ bit_and vector 0x1f) == 0) then ack_apic_irq s else s)

  -- The reasons that are printed, the count of errors and the registers.
  unfoldable pub sysvec_error_interrupt : (irq_err_count : ℕ) → d.State → List ℕ × ℕ × d.State
  sysvec_error_interrupt irq_err_count s =
      let t = only (ltb 3 (lapic_get_maxlvt d def s)) (d.write esr 0) s in
      let v = d.read esr t in (reasons 8 (bit_and v 0xff) 0, irq_err_count + 1, ack_apic_irq t)
