-- ===== src/Apic/Deadline/Secondary.antt =====
-- The clock event devices of the secondary processors, which call `setup_secondary_APIC_clock` of
-- linux/arch/x86/kernel/apic/apic.c one after another, against the boot processor's template.
use resume_from_edk2_tooling.Base.{
  ◌≡◌, refl, ◌∙◌, inl, inr, true, false, Option, none, some, List, [], ◌∷◌, Bool-cases,
}
use resume_from_edk2_tooling.Apic.Device.{Device, ApicDef}
use resume_from_edk2_tooling.Apic.Calibrate.Clock.{Template, Timing}
use resume_from_edk2_tooling.Apic.Deadline.{
  ThisCpu, Registration, register_device, config_and_register, Clocked, setup_apic_timer,
  setup_secondary_apic_clock, preferred,
}

-- The same scale and limits, and as much of a dummy.
pub record SameClock (t u : Template) : Type 0 where
  pub dummies : t.is_dummy ≡ u.is_dummy
  pub mults : t.mult ≡ u.mult
  pub longest : (t.max_delta_ns ≡ u.max_delta_ns) × (t.max_delta_ticks ≡ u.max_delta_ticks)
  pub shortest : (t.min_delta_ns ≡ u.min_delta_ns) × (t.min_delta_ticks ≡ u.min_delta_ticks)

SameClock-trans : {t u v : Template} → SameClock t u → SameClock u v → SameClock t v
SameClock-trans a b = record {
  dummies = a.dummies ∙ b.dummies;
  mults = a.mults ∙ b.mults;
  longest = (a.longest.0 ∙ b.longest.0, a.longest.1 ∙ b.longest.1);
  shortest = (a.shortest.0 ∙ b.shortest.0, a.shortest.1 ∙ b.shortest.1);
}

preferred-SameClock : (c : ThisCpu) (t : Template) → SameClock (preferred c t) t
preferred-SameClock c t = elim (Bool-cases c.has_arat) [
  | inl e ↦
      rw e
        (record { dummies = refl; mults = refl; longest = (refl, refl); shortest = (refl, refl) })
  | inr e ↦
      rw e
        (record { dummies = refl; mults = refl; longest = (refl, refl); shortest = (refl, refl) })
]

-- What a processor registers: the deadline device, or a device that keeps the template's clock.
abbrev pub IsClock : Template → ThisCpu → Registration → Type 0
IsClock t c (config_and_register levt freq min_delta max_delta) =
    (c.has_tsc_deadline ≡ true) × (levt.copied.is_dummy ≡ false) × (levt.cpu ≡ c.processor_id)
IsClock t c (register_device levt) =
    (c.has_tsc_deadline ≡ false) × SameClock levt.copied t × (levt.cpu ≡ c.processor_id)

setup_apic_timer-IsClock :
    (boot : Template) (c : ThisCpu) (t : Template)
    → SameClock t boot
    → IsClock boot c (setup_apic_timer c t).1 × SameClock (setup_apic_timer c t).0 boot
unfolding setup_apic_timer
setup_apic_timer-IsClock boot c t same =
    let kept = SameClock-trans (preferred-SameClock c t) same in
    elim (Bool-cases c.has_tsc_deadline) [
      | inl e ↦ simp e ((refl, refl, refl), kept)
      | inr e ↦ simp e ((refl, kept, refl), kept)
    ]

module _ (d : Device) (def : ApicDef) (amd_e400_c1e_apic_setup : d.State → d.State) where
  abbrev pub set_up_on : ThisCpu × d.State → Timing → Clocked d.State
  set_up_on (c, s) t = setup_secondary_apic_clock d def amd_e400_c1e_apic_setup c t s

  -- The processors one after another, each with its own APIC: what each has registered.
  unfoldable pub secondary_clocks :
      List (ThisCpu × d.State) → Timing → List (ThisCpu × Option Registration)
  secondary_clocks [] t = []
  secondary_clocks (x ∷ rest) t =
      let y = set_up_on x t in (x.0, y.registered) ∷ secondary_clocks rest y.timing

  -- All have registered a device with the clock of a template.
  abbrev pub AllClocks : Template → List (ThisCpu × Option Registration) → Type 0
  AllClocks t [] = Unit
  AllClocks t ((c, none) ∷ rest) = ⊥
  AllClocks t ((c, some r) ∷ rest) = IsClock t c r × AllClocks t rest

  secondary_clocks_from :
      (boot : Template) (cpus : List (ThisCpu × d.State)) (t : Timing)
      → SameClock t.lapic_clockevent boot
      → AllClocks boot (secondary_clocks cpus t)
  unfolding secondary_clocks setup_secondary_apic_clock
  secondary_clocks_from boot [] t same = tt
  secondary_clocks_from boot ((c, s) ∷ rest) t same =
      let step = setup_apic_timer-IsClock boot c t.lapic_clockevent same in
      (step.0, secondary_clocks_from boot rest _ step.1)

  -- However many secondary processors set their clocks up, one after another, each registers a
  -- device of its own: the deadline device, never a dummy, if it has that timer, and otherwise one
  -- that has the factor and the limits of the template that the boot processor left, and is a dummy
  -- just if that is one.
  pub secondary_clocks-AllClocks :
      (cpus : List (ThisCpu × d.State)) (t : Timing)
      → AllClocks t.lapic_clockevent (secondary_clocks cpus t)
  secondary_clocks-AllClocks cpus t =
      secondary_clocks_from t.lapic_clockevent cpus t
        (record { dummies = refl; mults = refl; longest = (refl, refl); shortest = (refl, refl) })
