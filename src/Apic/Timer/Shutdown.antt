-- ===== src/Apic/Timer/Shutdown.antt =====
-- What the timer's interrupt and its settings leave in the registers.
use resume_from_edk2_tooling.Base.{
  ℕ, ◌/◌, ◌≡◌, Bool, true, false, bit_and, bit_or, List, [], ◌∷◌, arith, ap, ◌∙◌,
}
use resume_from_edk2_tooling.Apic.Device.{
  Device, ApicDef, Holds, lvtt, tmict, tdcr, lapic_is_integrated,
}
use resume_from_edk2_tooling.Apic.Timer.{
  ClockEvent, Note, print_jiffies, print_spurious, lapic_timer_shutdown, local_apic_timer_interrupt,
  setup_apic_lvtt, lvtt_value, divided, lapic_timer_set_periodic, lapic_timer_set_periodic_oneshot,
}

-- The notes other than the line that zzzloop's flag asks for.
abbrev pub undisturbed : List Note → List Note
undisturbed [] = []
undisturbed (print_jiffies j ∷ rest) = undisturbed rest
undisturbed (n ∷ rest) = n ∷ undisturbed rest

module _ (d : Device) (def : ApicDef) where
  -- A timer interrupt that comes before a handler is set runs no handler, and leaves the timer
  -- entry masked with the count at 0, unless the device is a dummy; LVTT and TMICT hold what is
  -- written to them.
  pub early_timer_interrupt :
      (handler : d.State → d.State) (flag jiffies : ℕ) (evt : ClockEvent) (s : d.State)
      → Holds d lvtt
      → Holds d tmict
      → evt.has_event_handler ≡ false
      → evt.is_dummy ≡ false
      → let r = local_apic_timer_interrupt d def handler flag jiffies evt s in
        (undisturbed r.0 ≡ print_spurious ∷ [])
        × (d.read lvtt r.1 ≡ bit_or (d.read lvtt s) (bit_or def.lvt_masked def.local_timer_vector))
        × (d.read tmict r.1 ≡ 0)
  unfolding local_apic_timer_interrupt lapic_timer_shutdown
  early_timer_interrupt handler flag jiffies evt s h_lvtt h_tmict early real =
      let v : ℕ = bit_or (d.read lvtt s) (bit_or def.lvt_masked def.local_timer_vector) in
      let off : (local_apic_timer_interrupt d def handler flag jiffies evt s).1
          ≡ d.write tmict 0 (d.write lvtt v s) =
        ground arith in
      (
        ground arith,
        ap (d.read lvtt) off ∙ h_lvtt tmict 0 (d.write lvtt v s) ∙ h_lvtt lvtt v s,
        ap (d.read tmict) off ∙ h_tmict tmict 0 (d.write lvtt v s),
      )

  -- A periodic timer that is no dummy is given a sixteenth of the period as its count and a clock divided by 16,
  -- its entry is the periodic one, unmasked; this holds if no bit of the entry is the one that
  -- selects deadlines, and LVTT, TMICT and TDCR hold what is written to them.
  pub periodic_runs :
      (deadline : Bool) (period : ℕ) (evt : ClockEvent) (s : d.State)
      → Holds d lvtt
      → Holds d tmict
      → Holds d tdcr
      → evt.is_dummy ≡ false
      → let value = lvtt_value d def deadline (lapic_is_integrated d def s) false true in
        let t = lapic_timer_set_periodic d def deadline period evt s in
        bit_and value def.lvt_timer_tscdeadline ≡ 0
        → (d.read lvtt t ≡ value)
          × (d.read tmict t ≡ period / 16)
          × (d.read tdcr t ≡ divided d def (d.read tdcr s))
  unfolding lapic_timer_set_periodic_oneshot setup_apic_lvtt
  periodic_runs deadline period evt s h_lvtt h_tmict h_tdcr real plain =
      let value : ℕ = lvtt_value d def deadline (lapic_is_integrated d def s) false true in
      let armed : d.State = d.write lvtt value s in
      let v : ℕ = divided d def (d.read tdcr armed) in
      let ends : lapic_timer_set_periodic d def deadline period evt s
          ≡ d.write tmict (period / 16) (d.write tdcr v armed) =
        ground arith in
      (
        ap (d.read lvtt) ends
            ∙ h_lvtt tmict _ (d.write tdcr v armed)
            ∙ h_lvtt tdcr v armed
            ∙ h_lvtt lvtt value s,
        ap (d.read tmict) ends ∙ h_tmict tmict _ (d.write tdcr v armed),
        ap (d.read tdcr) ends
            ∙ h_tdcr tmict _ (d.write tdcr v armed)
            ∙ h_tdcr tdcr v armed
            ∙ ap (divided d def) (h_tdcr lvtt value s),
      )
