-- ===== src/Apic/X2apic/Reach.antt =====
-- The x2APIC switch over time: the kernel's operations in any order and number.
use resume_from_edk2_tooling.Base.{◌≡◌, ◌≢◌, Bool, true, false, [], ℕ, sym, subst}
use resume_from_edk2_tooling.Apic.X2apic.{
  Machine, ok, off, on, setup_nox2apic, x2apic_setup, register_lapic_address, try_to_enable_x2apic,
  check_x2apic,
}
use resume_from_edk2_tooling.Apic.X2apic.Modes.{
  IsSound, IsLegal, not_on, setup_nox2apic-IsSound, x2apic_setup-IsSound,
  try_to_enable_x2apic-IsSound, check_x2apic-IsSound,
}

-- One call. What the firmware left is looked at only while the switch is not "on".
pub data Step (s : Machine) : Machine → Type 0 where
  forbid : (readable : Bool) → Step s (setup_nox2apic readable s)
  look : (readable : Bool) → s.x2apic_state ≢ on → Step s (check_x2apic readable s)
  try_it :
      (remapped available : Bool) {t : Machine}
      → try_to_enable_x2apic remapped available s ≡ ok t
      → Step s t
  bring_up : Step s (x2apic_setup s)
  map_at : (address : ℕ) → Step s (register_lapic_address address s)

-- A machine as the firmware hands it over, with the x2APIC on or off.
pub record IsFresh (s : Machine) : Type 0 where
  pub not_yet : s.x2apic_mode ≡ false
  pub is_off : s.x2apic_state ≡ off
  pub enabled : s.msr.xapic_enable ≡ true
  pub unwritten : s.before ≡ []

pub data Reach (s : Machine) : Machine → Type 0 where
  start : Reach s s
  later : {t u : Machine} → Reach s t → Step t u → Reach s u

IsFresh-IsSound : (s : Machine) → IsFresh s → IsSound s
IsFresh-IsSound s f =
    not_on s f.enabled (subst (λ l. IsLegal s.msr l) (sym f.unwritten) tt) f.not_yet (λ h. cc)

register_lapic_address-IsSound :
    (a : ℕ) (s : Machine) → IsSound s → IsSound (register_lapic_address a s)
unfolding register_lapic_address
register_lapic_address-IsSound a s v = record {
  flag = v.flag;
  hardware = v.hardware;
  enabled = v.enabled;
  legal = v.legal;
}

Step-IsSound : {s t : Machine} → IsSound s → Step s t → IsSound t
Step-IsSound {s} v (forbid readable) = setup_nox2apic-IsSound readable s v
Step-IsSound {s} v (look readable ne) = check_x2apic-IsSound readable s v ne
Step-IsSound {s} v (try_it remapped available h) =
    try_to_enable_x2apic-IsSound remapped available s v h
Step-IsSound {s} v bring_up = x2apic_setup-IsSound s v
Step-IsSound {s} v (map_at a) = register_lapic_address-IsSound a s v

-- However the kernel's operations on the x2APIC follow one another, from a machine as the
-- firmware leaves it, as long as none panics: the mode flag is set exactly in the state "on", in
-- which the hardware is in x2APIC mode, the APIC is enabled, and every step of the MSR was one
-- that the processor allows. What the firmware left is looked at only while the state is not "on".
pub Reach-IsSound : {s t : Machine} → IsFresh s → Reach s t → IsSound t
Reach-IsSound f start = IsFresh-IsSound _ f
Reach-IsSound f (later r step) = Step-IsSound (Reach-IsSound f r) step
