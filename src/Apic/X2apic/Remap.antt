-- ===== src/Apic/X2apic/Remap.antt =====
-- When the x2APIC can be used, and when the kernel must stop.
use resume_from_edk2_tooling.Base.{
  ◌≡◌, ◌↔◌, refl, arith, Bool, true, false, Bool-cases, inl, inr, not, ◌||◌, ◌⊎◌, ltb, ◌≤◌, ◌<◌,
}
use resume_from_edk2_tooling.Apic.X2apic.{
  off, on, disabled, Machine, ok, panic, hw_enable, x2apic_disable, x2apic_enable,
  try_to_enable_x2apic,
}

-- The kernel panics exactly if the firmware has switched the x2APIC on, interrupts are not
-- remapped, it cannot be used without that, and this processor's id is too large to go back.
pub try_to_enable_x2apic-panic :
    (remapped available : Bool) (s : Machine)
    → (try_to_enable_x2apic remapped available s ≡ panic) ↔ (
        (s.x2apic_state ≡ on)
        × (remapped ≡ false)
        × ((255 < s.max_physical_apicid) ⊎ (available ≡ false))
        × (255 ≤ s.apic_id))
unfolding try_to_enable_x2apic x2apic_disable
try_to_enable_x2apic-panic remapped available s = (λ h. ground arith, λ h. ground arith)

hw_enable-state : (s : Machine) → (hw_enable s).x2apic_state ≡ s.x2apic_state
unfolding hw_enable
hw_enable-state s = ground arith

-- From the state "off" the switch ends on exactly if interrupts are remapped in x2APIC mode, or
-- every id fits the old format and the hypervisor allows it; otherwise it ends disabled.
pub try_to_enable_x2apic_off :
    (remapped available : Bool) (s : Machine)
    → s.x2apic_state ≡ off
    → (t : Machine) × (try_to_enable_x2apic remapped available s ≡ ok t)
      × (((t.x2apic_state ≡ on)
            × ((remapped ≡ true) ⊎ ((s.max_physical_apicid ≤ 255) × (available ≡ true))))
          ⊎ ((t.x2apic_state ≡ disabled)
              × (remapped ≡ false)
              × ((255 < s.max_physical_apicid) ⊎ (available ≡ false))))
unfolding try_to_enable_x2apic x2apic_disable x2apic_enable
try_to_enable_x2apic_off remapped available s h = elim (Bool-cases remapped) [
  | inl remap ↦
      let t = hw_enable (record s { x2apic_mode = true; x2apic_state = on }) in
      (t, ground (arith, h, remap), inl (hw_enable-state _, inl remap))
  | inr plain ↦ elim (Bool-cases (ltb 255 s.max_physical_apicid || not available)) [
    | inl cannot ↦ (
      record s { x2apic_mode = false; x2apic_state = disabled },
      ground (arith, h, plain, cannot),
      inr (refl, plain, ground (arith, cannot)),
    )
    | inr can ↦
        let s1 : Machine = record s { x2apic_phys = true } in
        let t = hw_enable (record s1 { x2apic_mode = true; x2apic_state = on }) in
        (
          t,
          ground (arith, h, plain, can),
          inl (hw_enable-state _, inr (ground (arith, can), ground (arith, can))),
        )
  ]
]
