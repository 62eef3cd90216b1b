-- ===== src/Apic/Connect/Imcr.antt =====
-- Leaving PIC mode and going back to it, on a 32-bit kernel.
use resume_from_edk2_tooling.Base.{ℕ, ◌≡◌, refl, Bool, true, false}
use resume_from_edk2_tooling.Apic.Device.{Device, ApicDef}
use resume_from_edk2_tooling.Apic.Connect.{EntryDef}
use resume_from_edk2_tooling.Apic.Connect.PicMode.{connect_bsp_apic_32, disconnect_bsp_apic_32}

-- The IMCR: selected by 0x70 at port 0x22, it takes what is written to port 0x23.
abbrev pub IsImcr : {P : Type 0} → ((value port : ℕ) → P → P) → (P → ℕ) → Type 0
IsImcr {P} outb imcr = (v : ℕ) (p : P) → imcr (outb v 0x23 (outb 0x70 0x22 p)) ≡ v

-- In PIC mode, connecting the boot processor routes interrupts through its APIC, and disconnecting it
-- afterwards routes them past it again and leaves the APIC as connecting had left it. Otherwise
-- connecting does nothing, and disconnecting leaves the routing alone.
pub disconnect-connect :
    {P : Type 0} (outb : (value port : ℕ) → P → P) (imcr : P → ℕ) (d : Device) (def : ApicDef)
    (entry : EntryDef) (pic_mode mapped virt_wire_setup : Bool) (s : d.State) (p : P)
    → IsImcr outb imcr
    → let x = connect_bsp_apic_32 outb d def entry pic_mode mapped (s, p) in
      let y = disconnect_bsp_apic_32 outb d def entry pic_mode virt_wire_setup x in
      (pic_mode ≡ true → (imcr x.1 ≡ 1) × (imcr y.1 ≡ 0) × (y.0 ≡ x.0))
      × (pic_mode ≡ false → (x.0 ≡ s) × (x.1 ≡ p) × (y.1 ≡ p))
unfolding connect_bsp_apic_32 disconnect_bsp_apic_32
disconnect-connect outb imcr d def entry true mapped virt s p h =
    (λ _. (h 1 p, h 0 _, refl), λ e. cc)
disconnect-connect outb imcr d def entry false mapped virt s p h =
    (λ e. cc, λ _. (refl, refl, refl))
