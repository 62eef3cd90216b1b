-- ===== src/Apic/Timer/Portable.antt =====
-- The timer's operations and the handlers of interrupts do the same through any two drivers that are
-- alike.
use resume_from_edk2_tooling.Base.{
  ℕ, ◌/◌, ◌^◌, bit_and, bit_or, ◌≡◌, refl, ap, subst, inl, inr, Bool, true, false, not, arith, ltb,
  ◌==◌, if◌then◌else◌, Bool-cases,
}
use resume_from_edk2_tooling.Apic.Device.{
  ApicDef, Device, Reg, same, dfr, lvr, lvtt, tdcr, tmict, esr, isr, only, lapic_get_maxlvt,
  lapic_is_integrated, not32,
}
use resume_from_edk2_tooling.Apic.Drivers.Alike.{SameRegs, Alike}
use resume_from_edk2_tooling.Apic.Timer.{
  ClockEvent, lvtt_value, divided, setup_apic_lvtt, lapic_next_event, lapic_timer_shutdown,
  lapic_timer_set_periodic_oneshot, local_apic_timer_interrupt, sysvec_apic_timer_interrupt,
}
use resume_from_edk2_tooling.Apic.Vectors.{spurious_interrupt, sysvec_error_interrupt, reasons}
use resume_from_edk2_tooling.Apic.Width.{IsU32, DefFits, bit_or-IsU32, clear-IsU32}
use resume_from_edk2_tooling.Apic.Lvt.Portable.{AllWritten}
use resume_from_edk2_tooling.Apic.Width.Timer.{lvtt_value-IsU32}

-- The timer's registers are written through both.
pub record TimerWritten (dropped : Reg → Bool) : Type 0 where
  pub tdcr : dropped tdcr ≡ false
  pub tmict : dropped tmict ≡ false

module _ (d e : Device) (def : ApicDef) (fits : DefFits def) (dropped : Reg → Bool)
    (alike : Alike d e dropped) (written : AllWritten dropped)
    (timer_written : TimerWritten dropped) where
  -- The same value, however it was computed, written to a register.
  same_write :
      (q : Reg) (v w : ℕ) {s : d.State} {t : e.State}
      → dropped q ≡ false
      → v ≡ w
      → IsU32 v
      → SameRegs d e s t
      → SameRegs d e (d.write q v s) (e.write q w t)
  same_write q v w {s} {t} open_q p narrow h =
      subst (λ x. SameRegs d e (d.write q v s) (e.write q x t)) p (alike.write q v open_q narrow h)

  same_if :
      (b c : Bool) {s s' : d.State} {t t' : e.State}
      → b ≡ c
      → SameRegs d e s t
      → SameRegs d e s' t'
      → SameRegs d e (if b then s else s') (if c then t else t')
  same_if true c {s} {s'} {t} {t'} p h h' = subst (λ x. SameRegs d e s (if x then t else t')) p h
  same_if false c {s} {s'} {t} {t'} p h h' = subst (λ x. SameRegs d e s' (if x then t else t')) p h'

  pub lapic_next_event-SameRegs :
      (delta : ℕ) {s : d.State} {t : e.State}
      → SameRegs d e s t
      → SameRegs d e (lapic_next_event d def delta s) (lapic_next_event e def delta t)
  unfolding lapic_next_event
  lapic_next_event-SameRegs delta h = same_write tmict _ _ timer_written.tmict refl (omega arith) h

  pub lapic_timer_shutdown-SameRegs :
      (evt : ClockEvent) {s : d.State} {t : e.State}
      → SameRegs d e s t
      → SameRegs d e (lapic_timer_shutdown d def evt s) (lapic_timer_shutdown e def evt t)
  unfolding lapic_timer_shutdown
  lapic_timer_shutdown-SameRegs evt {s} {t} h =
      let masked : ℕ = bit_or def.lvt_masked def.local_timer_vector in
      same_if evt.is_dummy evt.is_dummy refl h (
        same_write tmict 0 0 timer_written.tmict refl (omega arith) (
          same_write lvtt (bit_or (d.read lvtt s) masked) (bit_or (e.read lvtt t) masked)
            written.lvtt (ap (λ x. bit_or x masked) (h.reads lvtt refl))
            (bit_or-IsU32 (d.read lvtt s) masked (h.narrow lvtt refl)
              (bit_or-IsU32 _ _ fits.lvt_masked fits.local_timer_vector))
            h))

  integrated-eq :
      {s : d.State} {t : e.State}
      → SameRegs d e s t
      → lapic_is_integrated d def s ≡ lapic_is_integrated e def t
  integrated-eq h = ap (λ x. def.is_integrated (def.version_of x)) (h.reads lvr refl)

  module _ (deadline : Bool) (clocks : ℕ) (oneshot irqen : Bool) (small : IsU32 clocks) where
    pub setup_apic_lvtt-SameRegs :
        {s : d.State} {t : e.State}
        → SameRegs d e s t
        → SameRegs d e
            (setup_apic_lvtt d def deadline clocks oneshot irqen s)
            (setup_apic_lvtt e def deadline clocks oneshot irqen t)
    unfolding setup_apic_lvtt
    setup_apic_lvtt-SameRegs {s} {t} h =
        let value : Bool → ℕ = λ b. lvtt_value d def deadline b oneshot irqen in
        let there = integrated-eq h in
        let s' : d.State = d.write lvtt (value (lapic_is_integrated d def s)) s in
        let t' : e.State = e.write lvtt (value (lapic_is_integrated e def t)) t in
        let armed : SameRegs d e s' t' =
          same_write lvtt _ _ written.lvtt (ap value there)
            (lvtt_value-IsU32 d def fits deadline (lapic_is_integrated d def s) oneshot irqen) h in
        let paced =
          same_write tdcr (divided d def (d.read tdcr s')) (divided d def (e.read tdcr t'))
            timer_written.tdcr (ap (divided d def) (armed.reads tdcr refl))
            (bit_or-IsU32 _ _
              (clear-IsU32 (d.read tdcr s') (bit_or def.tdr_div_1 def.tdr_div_tmbase))
              fits.tdr_div_16)
            armed in
        same_if _ _ (ap (λ b. not (bit_and (value b) def.lvt_timer_tscdeadline == 0)) there) armed (
          same_if (not oneshot) (not oneshot) refl
            (same_write tmict (clocks / 16) (clocks / 16) timer_written.tmict refl (omega arith)
              paced)
            paced)

  pub lapic_timer_set_periodic_oneshot-SameRegs :
      (deadline : Bool) (period : ℕ) (evt : ClockEvent) (oneshot : Bool) {s : d.State} {t : e.State}
      → IsU32 period
      → SameRegs d e s t
      → SameRegs d e
          (lapic_timer_set_periodic_oneshot d def deadline period evt oneshot s)
          (lapic_timer_set_periodic_oneshot e def deadline period evt oneshot t)
  unfolding lapic_timer_set_periodic_oneshot
  lapic_timer_set_periodic_oneshot-SameRegs deadline period evt oneshot small h =
      same_if evt.is_dummy evt.is_dummy refl h
        (setup_apic_lvtt-SameRegs deadline period oneshot true small h)

  module _ (ack : d.State → d.State) (ack' : e.State → e.State)
      (acked : (s : d.State) (t : e.State) → SameRegs d e s t → SameRegs d e (ack s) (ack' t)) where
    pub sysvec_apic_timer_interrupt-SameRegs :
        (handler : d.State → d.State) (handler' : e.State → e.State)
        (handled : (s : d.State) (t : e.State)
          → SameRegs d e s t
          → SameRegs d e (handler s) (handler' t))
        (flag jiffies : ℕ) (evt : ClockEvent) {s : d.State} {t : e.State}
        → SameRegs d e s t
        → let x = sysvec_apic_timer_interrupt d def ack handler flag jiffies evt s in
          let y = sysvec_apic_timer_interrupt e def ack' handler' flag jiffies evt t in
          (x.0 ≡ y.0) × SameRegs d e x.1 y.1
    unfolding sysvec_apic_timer_interrupt local_apic_timer_interrupt
    sysvec_apic_timer_interrupt-SameRegs handler handler' handled flag jiffies evt {s} {t} h =
        elim (Bool-cases evt.has_event_handler) [
          | inl present ↦ simp present (refl, handled _ _ (acked s t h))
          | inr idle ↦ simp idle (refl, lapic_timer_shutdown-SameRegs evt (acked s t h))
        ]

    pub spurious_interrupt-SameRegs :
        (vector : ℕ) {s : d.State} {t : e.State}
        → SameRegs d e s t
        → SameRegs d e
            (spurious_interrupt d def ack vector s)
            (spurious_interrupt e def ack' vector t)
    unfolding spurious_interrupt
    spurious_interrupt-SameRegs vector {s} {t} h =
        let word : ℕ = bit_and vector (not32 0x1f) / 2 / 0x10 in
        let apart : same (isr word) dfr ≡ false = ground arith in
        same_if (vector == def.spurious_apic_vector) _ refl h (
          same_if _ _
            (ap (λ v. not (bit_and v (2 ^ bit_and vector 0x1f) == 0)) (h.reads (isr word) apart))
            (acked s t h) h)

    pub sysvec_error_interrupt-SameRegs :
        (irq_err_count : ℕ) {s : d.State} {t : e.State}
        → SameRegs d e s t
        → let x = sysvec_error_interrupt d def ack irq_err_count s in
          let y = sysvec_error_interrupt e def ack' irq_err_count t in
          (x.0 ≡ y.0) × (x.1 ≡ y.1) × SameRegs d e x.2 y.2
    unfolding sysvec_error_interrupt only
    sysvec_error_interrupt-SameRegs irq_err_count {s} {t} h =
        let cleared =
          same_if (ltb 3 (lapic_get_maxlvt d def s)) (ltb 3 (lapic_get_maxlvt e def t))
            (ap (λ x. ltb 3 (if def.is_integrated (def.version_of x) then def.maxlvt_of x else 2))
              (h.reads lvr refl))
            (same_write esr 0 0 written.esr refl (omega arith) h) h in
        (ap (λ v. reasons 8 (bit_and v 0xff) 0) (cleared.reads esr refl), refl, acked _ _ cleared)
