-- ===== src/Apic/Params/Effects.antt =====
-- What the kernel parameters of the APIC lead to.
use resume_from_edk2_tooling.Base.{ℕ, ◌≡◌, refl, arith, Bool, true, Option, none, some, []}
use resume_from_edk2_tooling.Apic.Mode.{
  Setup, chosen, pic, choose_intr_mode, apic_intr_mode_select, apic_needs_pit, Clocks,
  apic_intr_mode_init,
}
use resume_from_edk2_tooling.Apic.Params.{
  Strings, Flags, einval, setup_disableapic, apic_set_verbosity, apic_set_disabled_cpu_apicid,
  apic_set_extnmi, put_apicid,
}

-- The parameters as the choice of the interrupt mode reads them.
abbrev pub configured : Flags → Setup → Setup
configured f s = record s { disable_apic = f.disable_apic; has_apic = f.has_apic }

-- With the parameter "disableapic" no panic comes: the legacy controller is chosen, the PIT is
-- needed and the APIC is not set up, whatever the firmware has found.
pub disableapic_chooses_pic :
    (f : Flags) (s : Setup) (c : Clocks) (upmode : Bool)
    → let t = configured (setup_disableapic f).1 s in
      (apic_intr_mode_select t ≡ chosen pic (record t { apic_intr_mode = pic }))
      × (apic_needs_pit c t ≡ true)
      × (apic_intr_mode_init upmode pic ≡ [])
unfolding setup_disableapic apic_intr_mode_select choose_intr_mode apic_needs_pit
    apic_intr_mode_init
disableapic_chooses_pic f s c upmode = (refl, ground arith, refl)

module _ {Str : Type 0} (lib : Strings Str) where
  put_apicid_kept :
      (o : Option ℕ) (f : Flags) → (put_apicid o f).0 ≡ einval → (put_apicid o f).1 ≡ f
  put_apicid_kept none f h = refl
  put_apicid_kept (some n) f h = cc

  -- A value that is refused changes nothing, for each of the three parsers that can refuse one.
  pub refused_value_kept :
      (arg : Option Str) (f : Flags)
      → ((apic_set_verbosity lib arg f).0 ≡ einval → (apic_set_verbosity lib arg f).1 ≡ f)
        × ((apic_set_disabled_cpu_apicid lib arg f).0 ≡ einval
            → (apic_set_disabled_cpu_apicid lib arg f).1 ≡ f)
        × ((apic_set_extnmi lib arg f).0 ≡ einval → (apic_set_extnmi lib arg f).1 ≡ f)
  unfolding apic_set_verbosity apic_set_disabled_cpu_apicid apic_set_extnmi
  refused_value_kept none f = (λ h. cc, λ h. refl, λ h. refl)
  refused_value_kept (some arg) f =
      (λ h. ground arith, put_apicid_kept (lib.get_option arg) f, λ h. ground arith)
