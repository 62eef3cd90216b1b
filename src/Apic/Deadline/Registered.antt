-- ===== src/Apic/Deadline/Registered.antt =====
-- What `setup_boot_APIC_clock` of linux/arch/x86/kernel/apic/apic.c registers.
use resume_from_edk2_tooling.Base.{
  ℕ, ◌*◌, ◌%◌, ◌^◌, ◌-◌, ◌/◌, ◌≤◌, ◌<◌, ◌≡◌, refl, ap, ◌∙◌, ◌⊎◌, inl, inr, true, false, not, Option,
  some, arith, ltb, if◌then◌else◌, lt→ltb, Bool-cases,
}
use resume_from_edk2_tooling.Apic.Device.{Device, ApicDef}
use resume_from_edk2_tooling.Apic.Calibrate.Handler.{Rates}
use resume_from_edk2_tooling.Apic.Calibrate.Polled.{Source, At}
use resume_from_edk2_tooling.Apic.Calibrate.Clock.{Template, Kernel, Timing, Arrivals}
use resume_from_edk2_tooling.Apic.Calibrate.Result.{IsTrusted, IsRefuted}
use resume_from_edk2_tooling.Apic.Deadline.{
  ThisCpu, Registration, register_device, Levt, Clocked, setup_apic_timer, setup_boot_apic_clock,
  device, preferred, config_and_register,
}

preferred-dummy : (c : ThisCpu) (t : Template) → (preferred c t).is_dummy ≡ t.is_dummy
preferred-dummy c t = ground arith

-- A deadline device is never a dummy, another is one if the template is.
device-dummy :
    (c : ThisCpu) (t : Template)
    → (device ((setup_apic_timer c t).1)).copied.is_dummy
      ≡ (if c.has_tsc_deadline then false else t.is_dummy)
unfolding setup_apic_timer
device-dummy c t = ground arith

-- What is registered without a calibration: the CPU's deadline device, with the TSC's frequency over
-- TSC_DIVISOR and its limits, or, where it has no such timer, a dummy that only counts as one.
abbrev pub IsInstead : ThisCpu → Option Registration → Type 0
IsInstead c o =
    (l : Levt) × (l.cpu ≡ c.processor_id)
    × (((c.has_tsc_deadline ≡ true)
          × (o ≡ some (config_and_register l (c.tsc_khz * 125 % 2 ^ 32) 15 (2 ^ 64 - 1)))
          × (l.is_deadline ≡ true)
          × (l.copied.is_dummy ≡ false))
        ⊎ ((c.has_tsc_deadline ≡ false)
            × (o ≡ some (register_device l))
            × (l.is_deadline ≡ false)
            × (l.copied.is_dummy ≡ true)))

setup_apic_timer-Instead :
    (c : ThisCpu) (t : Template) → t.is_dummy ≡ true → IsInstead c (some ((setup_apic_timer c t).1))
unfolding setup_apic_timer
setup_apic_timer-Instead c t dummy = elim (Bool-cases c.has_tsc_deadline) [
  | inl there ↦ simp there (_, refl, inl (refl, refl, refl, refl))
  | inr plain ↦ simp plain (_, refl, inr (refl, refl, refl, preferred-dummy c t ∙ dummy))
]

module _ (d : Device) (def : ApicDef) (amd : d.State → d.State) (k : Kernel) (r : Rates) where
  -- If the timer is disabled, the template is a dummy and there are several CPUs, the set-up
  -- returns without touching the APIC. The device that it registers is this CPU's, and a dummy
  -- just if the CPU has no deadline timer: with one, the deadline device is registered all the
  -- same, which is no dummy, with 125 times tsc_khz as its frequency.
  pub setup_boot_apic_clock-disabled :
      (fuel rounds : ℕ) (src : Source) (start : At) (irqs : Arrivals) (cpus : ℕ) (c : ThisCpu)
      (t : Timing) (s : d.State)
      → 1 < cpus
      → t.lapic_clockevent.is_dummy ≡ true
      → (y : Clocked (d.State)) × (setup_boot_apic_clock d def amd k r fuel rounds src start irqs
            true cpus c t s
          ≡ some y)
        × (y.apic ≡ s)
        × (y.timing.lapic_clockevent.is_dummy ≡ true)
        × (y.timing.levt_is_dummy ≡ not c.has_tsc_deadline)
        × IsInstead c (y.registered)
  unfolding setup_boot_apic_clock setup_apic_timer
  setup_boot_apic_clock-disabled fuel rounds src start irqs cpus c t s smp dummy =
      let several : ltb 1 cpus ≡ true = lt→ltb 1 cpus smp in
      let single : Template = record (t.lapic_clockevent) { mult = 1 } in
      let flag : (if c.has_tsc_deadline then false else true) ≡ not c.has_tsc_deadline =
        ground arith in
      rw several (
        _,
        refl,
        refl,
        preferred-dummy c single ∙ dummy,
        device-dummy c single ∙ ap (λ b. if c.has_tsc_deadline then false else b) dummy ∙ flag,
        setup_apic_timer-Instead c single dummy,
      )

  -- The template's copy is registered, as it stands.
  abbrev pub IsRegistered : Timing → Option Registration → Type 0
  IsRegistered t o = (l : Levt) × (o ≡ some (register_device l)) × (l.copied ≡ t.lapic_clockevent)

  -- A device that can be used has a calibrated period against which nothing speaks; another is a
  -- dummy, and the period is too short or refuted. `deltapm` is what the ACPI timer has run.
  abbrev pub IsUsable : ℕ → Timing → Type 0
  IsUsable deltapm t =
      ((t.levt_is_dummy ≡ false)
        × (1000000 / r.hz ≤ t.lapic_timer_period)
        × (t.lapic_clockevent.mult ≡ k.scale (t.lapic_timer_period / 16))
        × IsTrusted k r deltapm t.cal)
      ⊎ ((t.levt_is_dummy ≡ true)
          × ((t.lapic_timer_period < 1000000 / r.hz) ⊎ IsRefuted k r deltapm t.cal))
