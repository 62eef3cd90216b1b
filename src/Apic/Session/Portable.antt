-- ===== src/Apic/Session/Portable.antt =====
-- A session through memory and one through the MSRs: the registers stay the same.
use resume_from_edk2_tooling.Base.{
  ℕ, ◌≡◌, refl, sym, ◌∙◌, inl, inr, Bool, Option, some, List, [], ◌∷◌, Bool-cases, map,
}
use resume_from_edk2_tooling.Apic.Device.{Device, ApicDef, Reg}
use resume_from_edk2_tooling.Apic.Mode.{WireDef}
use resume_from_edk2_tooling.Apic.Setup.{Hooks}
use resume_from_edk2_tooling.Apic.Bringup.{Board}
use resume_from_edk2_tooling.Apic.Connect.{EntryDef}
use resume_from_edk2_tooling.Apic.Power.{Boot, PmState, save, lapic_suspend}
use resume_from_edk2_tooling.Apic.Timer.{ClockEvent}
use resume_from_edk2_tooling.Apic.Drivers.{Bus, Layout, is_dropped}
use resume_from_edk2_tooling.Apic.Drivers.Access.{Keeps}
use resume_from_edk2_tooling.Apic.Drivers.Alike.{
  SameRegs, Alike, AreApart, mem_driver-Alike, by_memory, by_msr,
}
use resume_from_edk2_tooling.Apic.Lvt.Portable.{
  AllWritten, lapic_shutdown-Matches, disable_local_apic-Matches,
}
use resume_from_edk2_tooling.Apic.Timer.Portable.{
  TimerWritten, lapic_next_event-SameRegs, lapic_timer_set_periodic_oneshot-SameRegs,
  sysvec_apic_timer_interrupt-SameRegs, spurious_interrupt-SameRegs,
  sysvec_error_interrupt-SameRegs,
}
use resume_from_edk2_tooling.Apic.Width.{IsU32, DefFits}
use resume_from_edk2_tooling.Apic.Session.{Action, Session, perform, perform_all, perform_all-cons}

-- The operations that do not name a state of the APIC, and that write no register which the driver
-- for MSRs drops.
pub data Operation : Type 0 where
  shutdown : (has_apic from_smp_config mapped : Bool) → Operation
  suspend : Boot → Operation
  set_mode :
      (deadline : Bool) → (lapic_timer_period : ℕ) → ClockEvent → (oneshot : Bool) → Operation
  next_event : (delta : ℕ) → Operation
  timer_interrupt : (apic_zzz_debug_flag jiffies : ℕ) → ClockEvent → Operation
  error_interrupt : (irq_err_count : ℕ) → Operation
  spurious : (vector : ℕ) → Operation

-- The operation through a driver.
abbrev pub through : (S : Type 0) → Operation → Action S
through S (shutdown has_apic from_smp_config mapped) =
    Action.shutdown has_apic from_smp_config mapped
through S (suspend boot) = Action.suspend boot
through S (set_mode deadline period evt oneshot) = Action.set_mode deadline period evt oneshot
through S (next_event delta) = Action.next_event delta
through S (timer_interrupt flag jiffies evt) = Action.timer_interrupt flag jiffies evt
through S (error_interrupt n) = Action.error_interrupt n
through S (spurious vector) = Action.spurious vector

-- `lapic_timer_period` is an `unsigned int`.
abbrev pub OperationFits : Operation → Type 0
OperationFits (set_mode deadline period evt oneshot) = IsU32 period
OperationFits o = Unit

abbrev pub OperationsFit : List Operation → Type 0
OperationsFit [] = Unit
OperationsFit (o ∷ rest) = OperationFits o × OperationsFit rest

-- The same registers, and power management active in both or in neither.
pub record SameSession (d e : Device) (x : Session d.State) (y : Session e.State) : Type 0 where
  pub regs : SameRegs d e x.up.apic y.up.apic
  pub active : x.up.pm.active ≡ y.up.pm.active

-- What one driver needs beside its device.
pub record Driven (d : Device) : Type 0 where
  pub hooks : Hooks d
  pub board : Board d

abbrev pub session :
    (d : Device)
    → ApicDef
    → WireDef
    → EntryDef
    → Driven d
    → List Operation
    → Session d.State
    → Option (Session d.State)
session d def wire entry k operations =
    perform_all d def wire k.hooks k.board entry (map (through d.State) operations)

module _ (d e : Device) (def : ApicDef) (fits : DefFits def) (dropped : Reg → Bool)
    (alike : Alike d e dropped) (written : AllWritten dropped)
    (timer_written : TimerWritten dropped) (wire : WireDef) (entry : EntryDef) (k : Driven d)
    (l : Driven e)
    (acked : (s : d.State) (t : e.State)
      → SameRegs d e s t
      → SameRegs d e (k.hooks.ack_apic_irq s) (l.hooks.ack_apic_irq t))
    (handled : (jiffies : ℕ) (s : d.State) (t : e.State)
      → SameRegs d e s t
      → SameRegs d e (k.hooks.event_handler jiffies s) (l.hooks.event_handler jiffies t)) where
  suspend-SameRegs :
      (boot : Boot) (p q : PmState) (s : d.State) (t : e.State)
      → p.active ≡ q.active
      → SameRegs d e s t
      → SameRegs d e (lapic_suspend d def boot p s).1 (lapic_suspend e def boot q t).1
  unfolding lapic_suspend
  suspend-SameRegs boot p q s t same h = elim (Bool-cases p.active) [
    | inl on ↦
        simp (on, sym same ∙ on)
          (disable_local_apic-Matches d e def dropped alike written fits.lvt_masked
            fits.error_apic_vector boot.mapped s t h)
    | inr off ↦ simp (off, sym same ∙ off) h
  ]

  suspend-active :
      (f : Device) (boot : Boot) (p : PmState) (s : f.State)
      → (lapic_suspend f def boot p s).0.active ≡ p.active
  unfolding lapic_suspend save
  suspend-active f boot p s = elim (Bool-cases p.active) [
    | inl on ↦ simp on refl
    | inr off ↦ simp off refl
  ]

  -- How one operation goes through both.
  abbrev Goes : Operation → Session d.State → Session e.State → Type 0
  Goes o x y =
      (x' : Session d.State) × (y' : Session e.State) × (perform d def wire k.hooks k.board entry
          (through d.State o) x
        ≡ some x')
      × (perform e def wire l.hooks l.board entry (through e.State o) y ≡ some y')
      × SameSession d e x' y'

  -- Operations that change the registers alone.
  on_regs :
      {x : Session d.State} {y : Session e.State} {s : d.State} {t : e.State}
      → SameSession d e x y
      → SameRegs d e s t
      → SameSession d e
          (record x { up = record (x.up) { apic = s } })
          (record y { up = record (y.up) { apic = t } })
  on_regs h regs = record { regs = regs; active = h.active }

  perform-SameSession :
      (o : Operation) (x : Session d.State) (y : Session e.State)
      → OperationFits o
      → SameSession d e x y
      → Goes o x y
  unfolding perform
  perform-SameSession (shutdown has_apic from_smp_config mapped) x y fit h =
      let m =
        lapic_shutdown-Matches d e def dropped alike written fits.lvt_masked fits.error_apic_vector
          has_apic from_smp_config mapped _ _ h.regs in
      (_, _, refl, refl, on_regs h m)
  perform-SameSession (suspend boot) x y fit h = (
    _,
    _,
    refl,
    refl,
    record {
      regs = suspend-SameRegs boot x.up.pm y.up.pm x.up.apic y.up.apic h.active h.regs;
      active =
          suspend-active d boot x.up.pm x.up.apic
          ∙ h.active
          ∙ sym (suspend-active e boot y.up.pm y.up.apic);
    },
  )
  perform-SameSession (set_mode deadline period evt oneshot) x y fit h =
      let m =
        lapic_timer_set_periodic_oneshot-SameRegs d e def fits dropped alike written timer_written
          deadline period evt oneshot fit h.regs in
      (_, _, refl, refl, on_regs h m)
  perform-SameSession (next_event delta) x y fit h =
      let m =
        lapic_next_event-SameRegs d e def fits dropped alike written timer_written delta h.regs in
      (_, _, refl, refl, on_regs h m)
  perform-SameSession (timer_interrupt flag jiffies evt) x y fit h =
      let m =
        sysvec_apic_timer_interrupt-SameRegs d e def fits dropped alike written timer_written
          k.hooks.ack_apic_irq l.hooks.ack_apic_irq acked (k.hooks.event_handler jiffies)
          (l.hooks.event_handler jiffies) (handled jiffies) flag jiffies evt h.regs in
      (_, _, refl, refl, on_regs h m.1)
  perform-SameSession (error_interrupt n) x y fit h =
      let m =
        sysvec_error_interrupt-SameRegs d e def fits dropped alike written timer_written
          k.hooks.ack_apic_irq l.hooks.ack_apic_irq acked n h.regs in
      (_, _, refl, refl, on_regs h m.2)
  perform-SameSession (spurious vector) x y fit h =
      let m =
        spurious_interrupt-SameRegs d e def fits dropped alike written timer_written
          k.hooks.ack_apic_irq l.hooks.ack_apic_irq acked vector h.regs in
      (_, _, refl, refl, on_regs h m)

  perform_all-SameSession :
      (operations : List Operation) (x : Session d.State) (y : Session e.State)
      → OperationsFit operations
      → SameSession d e x y
      → (x' : Session d.State) × (y' : Session e.State) × (session d def wire entry k operations x
          ≡ some x')
        × (session e def wire entry l operations y ≡ some y')
        × SameSession d e x' y'
  unfolding perform_all
  perform_all-SameSession [] x y fit h = (x, y, refl, refl, h)
  perform_all-SameSession (o ∷ rest) x y fit h =
      let (x1, y1, p, q, h1) = perform-SameSession o x y fit.0 h in
      let (x2, y2, p', q', h2) = perform_all-SameSession rest x1 y1 fit.1 h1 in
      (
        x2,
        y2,
        perform_all-cons d def wire k.hooks k.board entry (through d.State o)
              (map (through d.State) rest) x p
            ∙ p',
        perform_all-cons e def wire l.hooks l.board entry (through e.State o)
              (map (through e.State) rest) y q
            ∙ q',
        h2,
      )

-- Whether an APIC is reached through memory or through the MSRs, any sequence of shutdowns,
-- suspends, timer operations, and timer, error and spurious interrupts runs to its end, and leaves
-- the same in every register but DFR, if the same 32-bit numbers were in all but DFR before it and
-- power management was active in both or in neither. Memory and MSRs keep what is written, distinct
-- registers have distinct addresses and MSRs, the constants and the timer's period are 32-bit
-- numbers, and an end-of-interrupt and the kernel's handler of the timer's events leave the same in
-- all registers but DFR as well.
pub session-SameSession :
    (b c : Bus) (l : Layout) (def : ApicDef) (wire : WireDef) (entry : EntryDef)
    (k : Driven (by_memory b c l)) (k' : Driven (by_msr b c l))
    → Keeps b
    → Keeps c
    → AreApart b c l
    → DefFits def
    → ((s : b.State) (t : c.State)
        → SameRegs (by_memory b c l) (by_msr b c l) s t
        → SameRegs
            (by_memory b c l)
            (by_msr b c l)
            (k.hooks.ack_apic_irq s)
            (k'.hooks.ack_apic_irq t))
    → ((jiffies : ℕ) (s : b.State) (t : c.State)
        → SameRegs (by_memory b c l) (by_msr b c l) s t
        → SameRegs
            (by_memory b c l)
            (by_msr b c l)
            (k.hooks.event_handler jiffies s)
            (k'.hooks.event_handler jiffies t))
    → (operations : List Operation) (x : Session b.State) (y : Session c.State)
    → OperationsFit operations
    → SameSession (by_memory b c l) (by_msr b c l) x y
    → (x' : Session b.State) × (y' : Session c.State) × (session
          (by_memory b c l)
          def
          wire
          entry
          k
          operations
          x
        ≡ some x')
      × (session (by_msr b c l) def wire entry k' operations y ≡ some y')
      × SameSession (by_memory b c l) (by_msr b c l) x' y'
session-SameSession b c l def wire entry k k' kb kc apart fits acked handled =
    perform_all-SameSession (by_memory b c l) (by_msr b c l) def fits (is_dropped c l)
      (mem_driver-Alike b c l kb kc apart)
      (record {
        lvtt = refl;
        lvt0 = refl;
        lvt1 = refl;
        lvterr = refl;
        lvtpc = refl;
        lvtthmr = refl;
        lvtcmci = refl;
        esr = refl;
        spiv = refl;
      })
      (record { tdcr = refl; tmict = refl }) wire entry k k' acked handled
