-- ===== src/Apic/Initcalls/Frequency.antt =====
-- The frequency that a device is given when the TSC's frequency changes.
use resume_from_edk2_tooling.Base.{
  ℕ, ◌≡◌, refl, ap₂, inl, inr, Option, none, some, List, [], ◌∷◌, map, Bool-cases,
}
use resume_from_edk2_tooling.Apic.Deadline.{
  ThisCpu, Levt, Registration, config_and_register, register_device, device,
  lapic_update_tsc_freq_on, setup_apic_timer,
}
use resume_from_edk2_tooling.Apic.Calibrate.Clock.{Template}
use resume_from_edk2_tooling.Apic.Initcalls.{lapic_update_tsc_freq}

-- The device and the frequency of a registration that names one.
abbrev pub configured : Registration → Option (Levt × ℕ)
configured (config_and_register levt freq min_delta max_delta) = some (levt, freq)
configured (register_device levt) = none

-- A CPU after the TSC's frequency has changed.
abbrev pub retuned : (tsc_khz : ℕ) → ThisCpu → ThisCpu
retuned tsc_khz c = record c { tsc_khz = tsc_khz }

-- CPUs with the devices that `setup_APIC_timer` registered, each from its template.
abbrev pub registered : (tsc_khz : ℕ) → ThisCpu × Template → ThisCpu × Levt
registered tsc_khz (c, t) = (retuned tsc_khz c, device (setup_apic_timer c t).1)

abbrev pub fresh : (tsc_khz : ℕ) → ThisCpu × Template → Option (Levt × ℕ)
fresh tsc_khz (c, t) = configured (setup_apic_timer (retuned tsc_khz c) t).1

update-setup_apic_timer :
    (tsc_khz : ℕ) (c : ThisCpu) (t : Template)
    → lapic_update_tsc_freq_on (retuned tsc_khz c) (device (setup_apic_timer c t).1)
      ≡ configured (setup_apic_timer (retuned tsc_khz c) t).1
unfolding lapic_update_tsc_freq_on setup_apic_timer
update-setup_apic_timer tsc_khz c t = elim (Bool-cases c.has_tsc_deadline) [
  | inl e ↦ rw e refl
  | inr e ↦ rw e refl
]

-- When the TSC's frequency has changed, `lapic_update_tsc_freq` gives the device of every CPU just
-- what registering it anew would: the same device with the new frequency on a CPU with the deadline
-- timer, and nothing on another.
pub lapic_update_tsc_freq-setup_apic_timer :
    (tsc_khz : ℕ) (cpus : List (ThisCpu × Template))
    → lapic_update_tsc_freq (map (registered tsc_khz) cpus) ≡ map (fresh tsc_khz) cpus
unfolding lapic_update_tsc_freq
lapic_update_tsc_freq-setup_apic_timer tsc_khz [] = refl
lapic_update_tsc_freq-setup_apic_timer tsc_khz ((c, t) ∷ rest) =
    ap₂ (λ x y. x ∷ y) (update-setup_apic_timer tsc_khz c t)
      (lapic_update_tsc_freq-setup_apic_timer tsc_khz rest)
