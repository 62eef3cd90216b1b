-- ===== src/Apic/Session.antt =====
-- A whole session with a local APIC, as a sequence of calls into
-- linux/arch/x86/kernel/apic/apic.c, with the power cut that a suspend prepares for.
pub mod Silent
pub mod Portable
use resume_from_edk2_tooling.Base.{◌≡◌, ap, ℕ, Bool, Option, none, some, List, [], ◌∷◌}
use resume_from_edk2_tooling.Apic.Device.{Device, ApicDef}
use resume_from_edk2_tooling.Apic.Mode.{WireDef}
use resume_from_edk2_tooling.Apic.Setup.{Hooks, Options}
use resume_from_edk2_tooling.Apic.Bringup.{Board, Up, apic_ap_setup, bsp_setup}
use resume_from_edk2_tooling.Apic.Connect.{EntryDef, disconnect_bsp_apic}
use resume_from_edk2_tooling.Apic.Power.{Boot, lapic_suspend, lapic_resume}
use resume_from_edk2_tooling.Apic.Lvt.{lapic_shutdown}
use resume_from_edk2_tooling.Apic.Timer.{
  ClockEvent, lapic_next_event, lapic_timer_set_periodic_oneshot, sysvec_apic_timer_interrupt,
}
use resume_from_edk2_tooling.Apic.Vectors.{spurious_interrupt, sysvec_error_interrupt}

-- A call of one of the operations with what it is given; `power_cut` replaces the registers.
pub data Action (State : Type 0) : Type 0 where
  shutdown : (has_apic from_smp_config mapped : Bool) → Action State
  suspend resume : Boot → Action State
  power_cut : State → Action State
  set_up_cpu : Options → Action State
  set_up_boot_cpu : Options → (boot_cpu_physical_apicid : ℕ) → (upmode : Bool) → Action State
  set_mode :
      (deadline : Bool) → (lapic_timer_period : ℕ) → ClockEvent → (oneshot : Bool) → Action State
  next_event : (delta : ℕ) → Action State
  timer_interrupt : (apic_zzz_debug_flag jiffies : ℕ) → ClockEvent → Action State
  error_interrupt : (irq_err_count : ℕ) → Action State
  spurious : (vector : ℕ) → Action State
  disconnect : (virt_wire_setup : Bool) → Action State

-- The processor's APIC with what the kernel keeps of it, and IA32_APICBASE.
pub record Session (State : Type 0) : Type 0 where
  pub up : Up State
  pub base : ℕ

module _ (d : Device) (def : ApicDef) (wire : WireDef) (hooks : Hooks d) (board : Board d)
    (entry : EntryDef) where
  abbrev pub on_apic : (d.State → d.State) → Session d.State → Option (Session d.State)
  on_apic f x = some (record x { up = record (x.up) { apic = f x.up.apic } })

  abbrev pub on_up : Option (Up d.State) → Session d.State → Option (Session d.State)
  on_up none x = none
  on_up (some u) x = some (record x { up = u })

  -- `none` is a BUG, at which the kernel stops.
  unfoldable pub perform : Action d.State → Session d.State → Option (Session d.State)
  perform (shutdown has_apic from_smp_config mapped) =
      on_apic (lapic_shutdown d def has_apic from_smp_config mapped)
  perform (suspend boot) = λ x.
      let after = lapic_suspend d def boot x.up.pm x.up.apic in
      some (record x { up = record (x.up) { pm = after.0; apic = after.1 } })
  perform (resume boot) = λ x.
      let after = lapic_resume d def boot x.up.pm x.base x.up.apic in
      some (record x { base = after.0; up = record (x.up) { apic = after.1 } })
  perform (power_cut lost) = on_apic (λ _. lost)
  perform (set_up_cpu o) = λ x. on_up (apic_ap_setup d def wire hooks board o x.up) x
  perform (set_up_boot_cpu o n upmode) =
      λ x. on_up (bsp_setup d def wire hooks board o n upmode x.up) x
  perform (set_mode deadline period evt oneshot) =
      on_apic (lapic_timer_set_periodic_oneshot d def deadline period evt oneshot)
  perform (next_event delta) = on_apic (lapic_next_event d def delta)
  perform (timer_interrupt flag jiffies evt) = on_apic (λ s.
      (sysvec_apic_timer_interrupt d def hooks.ack_apic_irq (hooks.event_handler jiffies) flag
        jiffies evt s).1)
  perform (error_interrupt irq_err_count) =
      on_apic (λ s. (sysvec_error_interrupt d def hooks.ack_apic_irq irq_err_count s).2)
  perform (spurious vector) = on_apic (spurious_interrupt d def hooks.ack_apic_irq vector)
  perform (disconnect virt_wire_setup) = on_apic (disconnect_bsp_apic d def entry virt_wire_setup)

  unfoldable pub perform_all : List (Action d.State) → Session d.State → Option (Session d.State)
  perform_all [] x = some x
  perform_all (a ∷ rest) x = elim (perform a x) [ none ↦ none | some y ↦ perform_all rest y ]

  -- A sequence goes on from where its first action ends.
  pub perform_all-cons :
      (a : Action d.State) (rest : List (Action d.State)) (x : Session d.State)
      {y : Session d.State}
      → perform a x ≡ some y
      → perform_all (a ∷ rest) x ≡ perform_all rest y
  unfolding perform_all
  perform_all-cons a rest x done =
      ap
        (λ (o : Option (Session d.State)). elim o as (λ _. Option (Session d.State)) [
          | none ↦ none
          | some y ↦ perform_all rest y
        ])
        done
