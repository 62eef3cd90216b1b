-- ===== src/Apic/Drivers/Command.antt =====
-- The interrupt command register, written and read back.
use resume_from_edk2_tooling.Base.{
  ℕ, ◌+◌, ◌*◌, ◌/◌, ◌%◌, ◌^◌, ◌<◌, bit_or, ◌≡◌, ◌∙◌, true, arith, ◌==◌,
}
use resume_from_edk2_tooling.Apic.Device.{Device, Holds, icr, icr2}
use resume_from_edk2_tooling.Apic.Drivers.{
  Bus, Layout, msr_of, native_x2apic_icr_write, native_x2apic_icr_read, native_apic_icr_write,
  native_apic_icr_read,
}
use resume_from_edk2_tooling.Apic.Drivers.Access.{Keeps}
use resume_from_edk2_tooling.Base.Bits.{bit_or_joined, bit_or_comm}

bit_or_comm_joined :
    (dest low : ℕ) → low < 2 ^ 32 → bit_or (dest * 2 ^ 32) low ≡ low + dest * 2 ^ 32
bit_or_comm_joined dest low h = bit_or_comm (dest * 2 ^ 32) low ∙ bit_or_joined 32 low dest h

-- What `native_apic_icr_write` writes to the two words is read back by `native_apic_icr_read`: the
-- command in the low half, the destination's field in the high half. The command is a 32-bit
-- number, and both registers hold what is written to them.
pub native_apic_icr_read-native_apic_icr_write :
    (d : Device) (l : Layout) (low dest : ℕ) (s : d.State)
    → Holds d icr
    → Holds d icr2
    → low < 2 ^ 32
    → let x = native_apic_icr_read d l (native_apic_icr_write d l low dest s) in
      (x % 2 ^ 32 ≡ low) × (x / 2 ^ 32 ≡ l.set_dest_field dest)
unfolding native_apic_icr_read native_apic_icr_write
native_apic_icr_read-native_apic_icr_write d l low dest s h1 h2 fits =
    let field : ℕ = l.set_dest_field dest in
    let first : d.read icr (d.write icr low (d.write icr2 field s)) ≡ low = h1 icr low _ in
    let second : d.read icr2 (d.write icr low (d.write icr2 field s)) ≡ field =
      h2 icr low _ ∙ h2 icr2 field s in
    rw (first, second, bit_or_joined 32 low field fits) (omega arith, omega arith)

-- What is written to the one MSR is read back: the command in the low half, the destination itself
-- in the high half. The command is a 32-bit number, and the MSRs keep what is written.
pub native_x2apic_icr_read-native_x2apic_icr_write :
    (b : Bus) (l : Layout) (low dest : ℕ) (s : b.State)
    → Keeps b
    → low < 2 ^ 32
    → let x = native_x2apic_icr_read b l (native_x2apic_icr_write b l low dest s) in
      (x % 2 ^ 32 ≡ low) × (x / 2 ^ 32 ≡ dest)
native_x2apic_icr_read-native_x2apic_icr_write b l low dest s keeps fits =
    let n : ℕ = msr_of b l (l.offset icr) in
    let here : (n == n) ≡ true = ground arith in
    rw (keeps.msrs n n (bit_or (dest * 2 ^ 32) low) s, here, bit_or_comm_joined dest low fits)
      (omega arith, omega arith)
