-- ===== src/Apic/Mode/Select.antt =====
-- The interrupt delivery modes and what follows from them.
use resume_from_edk2_tooling.Base.{
  ◌≡◌, ◌↔◌, ◌==◌, Bool, true, false, ◌&&◌, if◌then◌else◌, [], ◌∷◌, arith,
}
use resume_from_edk2_tooling.Apic.Mode.{
  IntrMode, pic, Setup, panic, chosen, choose_intr_mode, apic_intr_mode_select,
  default_setup_apic_routing, apic_bsp_setup, apic_intr_mode_init, Clocks, apic_needs_pit,
}

-- The kernel panics exactly when an APIC that is not disabled, of a system with an SMP
-- configuration and more than no CPUs to use, has another id than the boot CPU's.
pub apic_intr_mode_select-panic :
    (s : Setup)
    → (apic_intr_mode_select s ≡ panic) ↔ (
        (s.disable_apic ≡ false)
        × (s.has_apic ≡ true)
        × (s.smp_found_config ≡ true)
        × ((s.setup_max_cpus == 0) ≡ false)
        × ((s.read_apic_id == s.boot_cpu_physical_apicid) ≡ false))
unfolding apic_intr_mode_select choose_intr_mode
apic_intr_mode_select-panic s =
    (λ h. (ground arith, ground arith, ground arith, ground arith, ground arith), λ h. ground arith)

-- After a choice without a panic, the mode is the legacy controller's exactly when the APIC is disabled, and
-- then the PIT is needed and the APIC is not set up.
pub apic_intr_mode_select-pic :
    (s t : Setup) (m : IntrMode) (c : Clocks) (upmode : Bool)
    → apic_intr_mode_select s ≡ chosen m t
    → ((m ≡ pic) ↔ (t.disable_apic ≡ true))
      × (t.apic_intr_mode ≡ m)
      × ((m ≡ pic) → (apic_needs_pit c t ≡ true) × (apic_intr_mode_init upmode m ≡ []))
unfolding apic_intr_mode_select choose_intr_mode apic_needs_pit apic_intr_mode_init
apic_intr_mode_select-pic s t m c upmode h =
    ((λ e. ground arith, λ e. ground arith), ground arith, λ e. (ground arith, ground arith))

-- When the choice makes the PIT unnecessary, the APIC is there, enabled, and gets set up with the
-- I/O APIC's routing or, on a system told to use no second CPU, without it.
pub apic_needs_pit-false :
    (s t : Setup) (m : IntrMode) (c : Clocks) (upmode : Bool)
    → apic_intr_mode_select s ≡ chosen m t
    → apic_needs_pit c t ≡ false
    → (t.has_apic ≡ true)
      × (t.disable_apic ≡ false)
      × (apic_intr_mode_init upmode m ≡ (
          if t.smp_found_config && t.setup_max_cpus == 0
          then apic_bsp_setup upmode ∷ []
          else default_setup_apic_routing ∷ apic_bsp_setup upmode ∷ []))
unfolding apic_intr_mode_select choose_intr_mode apic_needs_pit apic_intr_mode_init
apic_needs_pit-false s t m c upmode h free = (ground arith, ground arith, ground arith)
