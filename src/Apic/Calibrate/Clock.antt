-- ===== src/Apic/Calibrate/Clock.antt =====
-- `lapic_init_clockevent` and `calibrate_APIC_clock` of linux/arch/x86/kernel/apic/apic.c.
use resume_from_edk2_tooling.Base.{
  ℕ, zero, suc, ◌+◌, ◌-◌, ◌*◌, ◌/◌, ◌%◌, ◌^◌, Bool, true, false, not, ◌&&◌, ◌||◌, ◌==◌, leb, ltb,
  Option, none, some, if◌then◌else◌,
}
use resume_from_edk2_tooling.Base.Int.{negsuc}
use resume_from_edk2_tooling.Apic.Device.{Device, ApicDef}
use resume_from_edk2_tooling.Apic.Timer.{
  ClockEvent, setup_apic_lvtt, lapic_timer_set_periodic, lapic_timer_shutdown, apic_divisor,
}
use resume_from_edk2_tooling.Apic.Calibrate.Handler.{
  sub64, Rates, lapic_cal_loops, Sample, Cal, le_pos, lapic_cal_handler,
}
use resume_from_edk2_tooling.Apic.Calibrate.Polled.{Source, At, poll_loop}
use resume_from_edk2_tooling.Apic.Calibrate.PmTimer.{calibrate_by_pmtimer}

-- `lapic_clockevent` as far as apic.c changes it; `scale` and `delta2ns` are the kernel's `div_sc`
-- with TICK_NSEC and the shift, and `clockevent_delta2ns` at the factor.
pub record Template : Type 0 where
  pub is_dummy : Bool
  pub c3stop : Bool
  pub rating : ℕ
  pub mult : ℕ
  pub max_delta_ns : ℕ
  pub max_delta_ticks : ℕ
  pub min_delta_ns : ℕ
  pub min_delta_ticks : ℕ

pub record Kernel : Type 0 where
  pub do_div : ℕ → ℕ → ℕ
  pub scale : ℕ → ℕ
  pub delta2ns : (mult ticks : ℕ) → ℕ
  pub has_deadline : Bool
  pub has_global_clock_event : Bool

-- The state: the period, the template, whether this CPU's device is a dummy, and the variables.
pub record Timing : Type 0 where
  pub lapic_timer_period : ℕ
  pub lapic_clockevent : Template
  pub levt_is_dummy : Bool
  pub cal : Cal

abbrev pub filled : Kernel → ℕ → Template → Template
filled k period t =
    let mult = k.scale (period / apic_divisor) in
    record t {
      mult = mult;
      max_delta_ns = k.delta2ns mult 0x7FFFFFFF;
      max_delta_ticks = 0x7FFFFFFF;
      min_delta_ns = k.delta2ns mult 0xF;
      min_delta_ticks = 0xF;
    }

-- The Boolean says that 0 is returned.
unfoldable pub lapic_init_clockevent : Kernel → Timing → Bool × Timing
lapic_init_clockevent k t =
    if t.lapic_timer_period == 0
    then (false, t)
    else (true, record t { lapic_clockevent = filled k t.lapic_timer_period t.lapic_clockevent })

-- Division of a `long`, a word in two's complement, by a positive number.
abbrev pub signed_div : ℕ → ℕ → ℕ
signed_div w n = if ltb w (2 ^ 63) then w / n else 2 ^ 64 - (2 ^ 64 - w) / n

-- (delta * APIC_DIVISOR) / LAPIC_CAL_LOOPS, as an `unsigned int`.
abbrev pub period_of : Rates → ℕ → ℕ
period_of r delta = signed_div (delta * apic_divisor % 2 ^ 64) (lapic_cal_loops r) % 2 ^ 32

-- The timer's interrupts while the result is verified: `at_poll n` is what the handler reads if an
-- interrupt comes between the n-th test of `lapic_cal_loops` and the next one, and `none` if none
-- comes. The loop may make `polls` tests.
pub record Arrivals : Type 0 where
  pub polls : ℕ
  pub at_poll : ℕ → Option Sample

abbrev pub arrived : Rates → Option Sample → Cal → Cal
arrived r none c = c
arrived r (some x) c = lapic_cal_handler r x c

-- The loop that waits for the handler to have had its last sample; `none` means that the tests ran
-- out.
unfoldable pub interrupts : (polls n : ℕ) → Rates → (ℕ → Option Sample) → Cal → Option Cal
interrupts zero n r at_poll c = none
interrupts (suc polls) n r at_poll c =
    if not (le_pos c.loops (lapic_cal_loops r))
    then some c
    else interrupts polls (n + 1) r at_poll (arrived r (at_poll n) c)

-- Is the jiffies' difference consistent? Both sides are unsigned.
abbrev pub consistent : Rates → Cal → Bool
consistent r c =
    let deltaj = sub64 c.j2 c.j1 in
    let loops = lapic_cal_loops r in
    leb ((loops + 2 ^ 64 - 2) % 2 ^ 64) deltaj && leb deltaj (loops + 2)

module _ (d : Device) (def : ApicDef) (k : Kernel) (r : Rates) where
  abbrev pub levt : Timing → ClockEvent
  levt t = record { is_dummy = t.levt_is_dummy; has_event_handler = true }

  -- The end of the function: the result by the device's features.
  abbrev pub by_features : Timing × d.State → Bool × Timing × d.State
  by_features (t, s) = (not t.levt_is_dummy, t, s)

  -- What is done once the interrupts have been counted, and before.
  abbrev pub verified : Timing → Option Cal → d.State → Option (Timing × d.State)
  verified t none s = none
  verified t (some c) s = some (
    record t { cal = c; levt_is_dummy = t.levt_is_dummy || not (consistent r c) },
    lapic_timer_shutdown d def (levt t) s,
  )

  unfoldable pub verify : Arrivals → Timing → d.State → Option (Timing × d.State)
  verify irqs t s =
      let started = lapic_timer_set_periodic d def k.has_deadline t.lapic_timer_period (levt t) s in
      let counting : Cal = record (t.cal) { loops = negsuc 0 } in
      verified t (interrupts irqs.polls 0 r irqs.at_poll counting) started

  abbrev pub finish : Option (Timing × d.State) → Option (Bool × Timing × d.State)
  finish none = none
  finish (some x) = some (by_features x)

  -- The part behind the polling loop.
  unfoldable pub evaluate : Arrivals → Timing → Cal → d.State → Option (Bool × Timing × d.State)
  evaluate irqs t c s =
      let x =
        calibrate_by_pmtimer k.do_div r (sub64 c.pm2 c.pm1) (sub64 c.t1 c.t2)
          (sub64 c.tsc2 c.tsc1) in
      let t1 = record t { cal = c; lapic_timer_period = period_of r x.delta } in
      let t2 = (lapic_init_clockevent k t1).1 in
      let t3 = record t2 { levt_is_dummy = false } in
      if ltb t2.lapic_timer_period (1000000 / r.hz)
      then some (false, t2, s)
      else (if not x.referenced && k.has_global_clock_event
          then finish (verify irqs t3 s)
          else some (by_features (t3, s)))

  abbrev pub on_polled :
      Option (Cal × At)
      → (Cal → Option (Bool × Timing × d.State))
      → Option (Bool × Timing × d.State)
  on_polled none f = none
  on_polled (some (c, a)) f = f c

  -- `fuel` bounds the polls of a wait and `rounds` the ticks; `irqs` belongs to the verification. The Boolean says that 0 is returned.
  unfoldable pub calibrate_apic_clock :
      (fuel rounds : ℕ)
      → Source
      → At
      → Arrivals
      → Timing
      → d.State
      → Option (Bool × Timing × d.State)
  calibrate_apic_clock fuel rounds src start irqs t s =
      let ready = lapic_init_clockevent k t in
      let undummy = record (ready.1) {
        lapic_clockevent = record (ready.1.lapic_clockevent) { is_dummy = false };
      } in
      let counting = setup_apic_lvtt d def false 0xffffffff false false s in
      if k.has_deadline
      then some (true, t, s)
      else if ready.0
      then some (true, undummy, s)
      else on_polled (poll_loop fuel rounds r src start t.cal) λ c. evaluate irqs t c counting
