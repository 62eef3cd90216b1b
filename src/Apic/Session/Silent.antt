-- ===== src/Apic/Session/Silent.antt =====
-- After the shutdown: what is still on its way does not wake the APIC.
use resume_from_edk2_tooling.Base.{
  ℕ, ◌≡◌, ◌≢◌, refl, sym, ◌∙◌, Bool, true, false, ◌&&◌, ◌||◌, bit_and, bit_or, some, List, [], ◌∷◌,
  arith, Bool-cases, inl, inr,
}
use resume_from_edk2_tooling.Base.Bits.{bit_or-absorb_inner}
use resume_from_edk2_tooling.Apic.Device.{Reg, Device, ApicDef, lapic_get_maxlvt, lvr, spiv, lvtt}
use resume_from_edk2_tooling.Apic.Mode.{WireDef}
use resume_from_edk2_tooling.Apic.Setup.{Hooks}
use resume_from_edk2_tooling.Apic.Bringup.{Board, Up}
use resume_from_edk2_tooling.Apic.Connect.{EntryDef}
use resume_from_edk2_tooling.Apic.Power.{Boot, lapic_suspend}
use resume_from_edk2_tooling.Apic.Timer.{
  ClockEvent, lapic_next_event, lapic_timer_shutdown, local_apic_timer_interrupt,
  sysvec_apic_timer_interrupt,
}
use resume_from_edk2_tooling.Apic.Vectors.{spurious_interrupt, sysvec_error_interrupt}
use resume_from_edk2_tooling.Apic.Lvt.Silent.{
  Hardware, IsSilent, has_entry, same_table_of, masked_write-Keeps, esr_write-Keeps,
  tmict_write-Keeps, disable_local_apic-Keeps, lapic_shutdown-Keeps, lapic_shutdown-IsSilent,
}
use resume_from_edk2_tooling.Apic.Kept.{Keeps, only-Keeps, if_kept}
use resume_from_edk2_tooling.Apic.Session.{
  Action, Session, shutdown, suspend, next_event, timer_interrupt, error_interrupt, spurious,
  perform, perform_all, perform_all-cons,
}

-- What a processor may still do once its APIC has been shut down: handlers, a timer that is
-- programmed, another shutdown, a suspend.
abbrev pub is_quiet : {S : Type 0} → Action S → Bool
is_quiet (shutdown has_apic from_smp_config mapped) = true
is_quiet (suspend boot) = true
is_quiet (next_event delta) = true
is_quiet (timer_interrupt flag jiffies evt) = true
is_quiet (error_interrupt n) = true
is_quiet (spurious vector) = true
is_quiet a = false

abbrev pub all_quiet : {S : Type 0} → List (Action S) → Bool
all_quiet [] = true
all_quiet (a ∷ rest) = is_quiet a && all_quiet rest

module _ (d : Device) (def : ApicDef) (hw : Hardware d def) (n : ℕ) where
  or_mask :
      (v : ℕ) → bit_and (bit_or v (bit_or def.lvt_masked def.local_timer_vector)) def.lvt_masked ≢ 0
  or_mask v z =
      hw.mask_nonzero (sym (bit_or-absorb_inner v def.lvt_masked def.local_timer_vector) ∙ z)

  -- The timer's own shutdown writes the mask to its entry.
  lapic_timer_shutdown-Keeps :
      (evt : ClockEvent) → Keeps (IsSilent d def n) (lapic_timer_shutdown d def evt)
  unfolding lapic_timer_shutdown
  lapic_timer_shutdown-Keeps evt s t = if_kept (IsSilent d def n) evt.is_dummy _ _ t (
      tmict_write-Keeps d def hw n 0 _
        (masked_write-Keeps d def hw n lvtt _ (or_mask (d.read lvtt s)) refl s t))

  -- Code of the kernel that changes neither an entry of the table, nor SPIV, nor the version.
  pub record LeavesTable (f : d.State → d.State) : Type 0 where
    pub entries : (r : Reg) (s : d.State) → has_entry n r ≡ true → d.read r (f s) ≡ d.read r s
    pub spurious : (s : d.State) → d.read spiv (f s) ≡ d.read spiv s
    pub version : (s : d.State) → d.read lvr (f s) ≡ d.read lvr s

  leaves-Keeps : (f : d.State → d.State) → LeavesTable f → Keeps (IsSilent d def n) f
  leaves-Keeps f leaves s t = record {
    same_table = same_table_of d def hw s (f s) (leaves.version s) ∙ t.same_table;
    masked = λ r h. rw (leaves.entries r s h) (t.masked r h);
    disabled = rw (leaves.spurious s) t.disabled;
  }

  module _ (ack_apic_irq : d.State → d.State) (acks : LeavesTable ack_apic_irq) where
    ack-Keeps : Keeps (IsSilent d def n) ack_apic_irq
    ack-Keeps = leaves-Keeps ack_apic_irq acks

    timer_interrupt-Keeps :
        (handler : d.State → d.State)
        → LeavesTable handler
        → (flag jiffies : ℕ) (evt : ClockEvent)
        → Keeps
            (IsSilent d def n)
            (λ s. (sysvec_apic_timer_interrupt d def ack_apic_irq handler flag jiffies evt s).1)
    unfolding sysvec_apic_timer_interrupt local_apic_timer_interrupt
    timer_interrupt-Keeps handler leaves flag jiffies evt s t =
        elim (Bool-cases evt.has_event_handler) [
          | inl handled ↦ simp handled (leaves-Keeps handler leaves _ (ack-Keeps s t))
          | inr idle ↦ simp idle (lapic_timer_shutdown-Keeps evt _ (ack-Keeps s t))
        ]

    spurious_interrupt-Keeps :
        (vector : ℕ) → Keeps (IsSilent d def n) (spurious_interrupt d def ack_apic_irq vector)
    unfolding spurious_interrupt
    spurious_interrupt-Keeps vector s t =
        if_kept (IsSilent d def n) _ _ _ t (if_kept (IsSilent d def n) _ _ _ (ack-Keeps s t) t)

    error_interrupt-Keeps :
        (irq_err_count : ℕ)
        → Keeps
            (IsSilent d def n)
            (λ s. (sysvec_error_interrupt d def ack_apic_irq irq_err_count s).2)
    unfolding sysvec_error_interrupt
    error_interrupt-Keeps irq_err_count s t =
        ack-Keeps _ (only-Keeps (IsSilent d def n) _ _ (esr_write-Keeps d def hw n 0) s t)

  next_event-Keeps : (delta : ℕ) → Keeps (IsSilent d def n) (lapic_next_event d def delta)
  unfolding lapic_next_event
  next_event-Keeps delta s t = tmict_write-Keeps d def hw n _ s t

  suspend-IsSilent :
      (boot : Boot) (u : Up d.State)
      → IsSilent d def n u.apic
      → IsSilent d def n (lapic_suspend d def boot u.pm u.apic).1
  unfolding lapic_suspend
  suspend-IsSilent boot u t = elim (Bool-cases u.pm.active) [
    | inl on ↦ simp on (disable_local_apic-Keeps d def hw n boot.mapped u.apic t)
    | inr off ↦ simp off t
  ]

module _ (d : Device) (def : ApicDef) (wire : WireDef) (hooks : Hooks d) (board : Board d)
    (entry : EntryDef) (hw : Hardware d def) where
  abbrev pub StaysSilent : ℕ → List (Action d.State) → Session d.State → Type 0
  StaysSilent n actions x =
      (y : Session d.State) × (perform_all d def wire hooks board entry actions x ≡ some y)
      × IsSilent d def n y.up.apic

  module _ (n : ℕ) (acks : LeavesTable d def hw n hooks.ack_apic_irq)
      (handlers : (jiffies : ℕ) → LeavesTable d def hw n (hooks.event_handler jiffies)) where
    quiet_step :
        (a : Action d.State) (x : Session d.State)
        → is_quiet a ≡ true
        → IsSilent d def n x.up.apic
        → (y : Session d.State) × (perform d def wire hooks board entry a x ≡ some y)
          × IsSilent d def n y.up.apic
    unfolding perform
    quiet_step (shutdown has_apic from_smp_config mapped) x q t =
        (_, refl, lapic_shutdown-Keeps d def hw n has_apic from_smp_config mapped _ t)
    quiet_step (suspend boot) x q t = (_, refl, suspend-IsSilent d def hw n boot x.up t)
    quiet_step (next_event delta) x q t = (_, refl, next_event-Keeps d def hw n delta _ t)
    quiet_step (timer_interrupt flag jiffies evt) x q t = (
      _,
      refl,
      timer_interrupt-Keeps d def hw n hooks.ack_apic_irq acks (hooks.event_handler jiffies)
          (handlers jiffies) flag jiffies evt _ t,
    )
    quiet_step (error_interrupt c) x q t =
        (_, refl, error_interrupt-Keeps d def hw n hooks.ack_apic_irq acks c _ t)
    quiet_step (spurious vector) x q t =
        (_, refl, spurious_interrupt-Keeps d def hw n hooks.ack_apic_irq acks vector _ t)
    quiet_step a x q t = absurd (ground (arith, q))

    quiet_steps :
        (actions : List (Action d.State)) (x : Session d.State)
        → all_quiet actions ≡ true
        → IsSilent d def n x.up.apic
        → StaysSilent n actions x
    unfolding perform_all
    quiet_steps [] x q t = (x, refl, t)
    quiet_steps (a ∷ rest) x q t =
        let (y, done, s) = quiet_step a x (ground (arith, q)) t in
        let (z, all_done, u) = quiet_steps rest y (ground (arith, q)) s in
        (z, perform_all-cons d def wire hooks board entry a rest x done ∙ all_done, u)

  -- Once `lapic_shutdown` has run on a mapped APIC that the kernel uses, any number of timer, error
  -- and spurious interrupts, programmed events, further shutdowns and suspends, in any order, run to
  -- their end, and leave every entry of the local vector table masked and the APIC disabled. The
  -- entries and SPIV hold what is written, the version is read only, and neither an end-of-interrupt
  -- nor the kernel's handler of the timer's events, which may program the next event but does not
  -- switch the timer's mode, changes any of these.
  pub shutdown-StaysSilent :
      (has_apic from_smp_config : Bool) (actions : List (Action d.State)) (x : Session d.State)
      → LeavesTable d def hw (lapic_get_maxlvt d def x.up.apic) hooks.ack_apic_irq
      → ((jiffies : ℕ)
          → LeavesTable d def hw (lapic_get_maxlvt d def x.up.apic) (hooks.event_handler jiffies))
      → (has_apic || from_smp_config) ≡ true
      → all_quiet actions ≡ true
      → StaysSilent
          (lapic_get_maxlvt d def x.up.apic)
          (shutdown has_apic from_smp_config true ∷ actions)
          x
  unfolding perform_all perform
  shutdown-StaysSilent has_apic from_smp_config actions x acks handlers used quiet =
      quiet_steps (lapic_get_maxlvt d def x.up.apic) acks handlers actions _ quiet
        (lapic_shutdown-IsSilent d def hw has_apic from_smp_config x.up.apic used)
