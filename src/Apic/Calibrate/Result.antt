-- ===== src/Apic/Calibrate/Result.antt =====
-- What `calibrate_APIC_clock` of linux/arch/x86/kernel/apic/apic.c ends with.
use resume_from_edk2_tooling.Base.{
  ℕ, zero, suc, ◌+◌, ◌/◌, ◌≤◌, ◌<◌, ◌≡◌, refl, sym, ap, ◌∙◌, subst, ◌⊎◌, inl, inr, Bool, true,
  false, not, ◌&&◌, ◌||◌, Option, none, some, arith, ltb, leb, if◌then◌else◌, ltb→lt, Bool-cases,
  ◌≢◌, ◌^◌, ◌==◌, ◌-◌, ◌%◌, leb→le,
}
use resume_from_edk2_tooling.Base.Int.{pos, negsuc, ℤ}
use resume_from_edk2_tooling.Apic.Device.{Device, ApicDef}
use resume_from_edk2_tooling.Apic.Timer.{
  lapic_timer_set_periodic, setup_apic_lvtt, lapic_timer_shutdown,
}
use resume_from_edk2_tooling.Apic.Calibrate.Handler.{
  Rates, lapic_cal_loops, Sample, Cal, lapic_cal_handler, sub64, le_pos, succ,
}
use resume_from_edk2_tooling.Apic.Calibrate.PmTimer.{calibrate_by_pmtimer}
use resume_from_edk2_tooling.Apic.Calibrate.Polled.{Source, At, wait_tick, poll_loop}
use resume_from_edk2_tooling.Apic.Calibrate.Clock.{
  Kernel, Timing, interrupts, by_features, verify, evaluate, calibrate_apic_clock,
  lapic_init_clockevent, finish, consistent, levt, period_of, arrived, Arrivals,
}
use resume_from_edk2_tooling.Apic.Calibrate.Ticks.{at_loops, measured, poll_loop-ticks}

-- Is the difference of the jiffies during a verification right, give or take two? For an HZ below 20
-- it is never taken for right: there LAPIC_CAL_LOOPS - 2 wraps round.
abbrev pub IsConsistent : Rates → Cal → Type 0
IsConsistent r c =
    let ticks : ℕ = (c.j2 + 2 ^ 64 - c.j1) % 2 ^ 64 in
    (20 ≤ r.hz) × (r.hz / 10 ≤ ticks + 2) × (ticks ≤ r.hz / 10 + 2)

abbrev pub IsInconsistent : Rates → Cal → Type 0
IsInconsistent r c =
    let ticks : ℕ = (c.j2 + 2 ^ 64 - c.j1) % 2 ^ 64 in
    (r.hz < 20) ⊎ ((ticks + 2 < r.hz / 10) ⊎ (r.hz / 10 + 2 < ticks))

-- Nothing speaks against the result: the ACPI timer has run, by `deltapm`, or there is no other
-- clock to verify by, or the verification went well. Else it is refuted.
abbrev pub IsTrusted : Kernel → Rates → ℕ → Cal → Type 0
IsTrusted k r deltapm c = (deltapm ≢ 0) ⊎ ((k.has_global_clock_event ≡ false) ⊎ IsConsistent r c)

abbrev pub IsRefuted : Kernel → Rates → ℕ → Cal → Type 0
IsRefuted k r deltapm c = (deltapm ≡ 0) × (k.has_global_clock_event ≡ true) × IsInconsistent r c

-- Success: the period is not too short, the template has its factor, and the device can be used,
-- as nothing speaks against the result. Failure: the period is too short, or the result is refuted
-- and the device a dummy.
abbrev pub IsOutcome : Kernel → Rates → ℕ → Bool → Timing → Type 0
IsOutcome k r deltapm ok t =
    ((ok ≡ true)
      × (1000000 / r.hz ≤ t.lapic_timer_period)
      × (t.lapic_clockevent.mult ≡ k.scale (t.lapic_timer_period / 16))
      × (t.levt_is_dummy ≡ false)
      × IsTrusted k r deltapm t.cal)
    ⊎ ((ok ≡ false)
        × ((t.lapic_timer_period < 1000000 / r.hz)
            ⊎ ((t.levt_is_dummy ≡ true) × IsRefuted k r deltapm t.cal)))

and_true : (a b : Bool) → a && b ≡ true → (a ≡ true) × (b ≡ true)
and_true a b h = (ground arith, ground arith)

and_false : (a b : Bool) → a && b ≡ false → (a ≡ false) ⊎ (b ≡ false)
and_false a b h = ground arith

consistent-IsConsistent :
    (r : Rates) (c : Cal) → consistent r c ≡ true → r.hz ≤ 1000000 → IsConsistent r c
consistent-IsConsistent r c h small =
    let both =
      and_true (leb ((r.hz / 10 + 2 ^ 64 - 2) % 2 ^ 64) (sub64 c.j2 c.j1))
        (leb (sub64 c.j2 c.j1) (r.hz / 10 + 2)) h in
    let low : (r.hz / 10 + 2 ^ 64 - 2) % 2 ^ 64 ≤ sub64 c.j2 c.j1 = leb→le _ _ (both.0) in
    let high : sub64 c.j2 c.j1 ≤ r.hz / 10 + 2 = leb→le _ _ (both.1) in omega arith

not_consistent-IsInconsistent :
    (r : Rates) (c : Cal) → consistent r c ≡ false → r.hz ≤ 1000000 → IsInconsistent r c
not_consistent-IsInconsistent r c h small =
    elim (and_false (leb ((r.hz / 10 + 2 ^ 64 - 2) % 2 ^ 64) (sub64 c.j2 c.j1))
      (leb (sub64 c.j2 c.j1) (r.hz / 10 + 2)) h) [
        | inl below ↦
            let low : sub64 c.j2 c.j1 < (r.hz / 10 + 2 ^ 64 - 2) % 2 ^ 64 = ground (arith, below) in
            omega arith
        | inr above ↦
            let high : r.hz / 10 + 2 < sub64 c.j2 c.j1 = ground (arith, above) in omega arith
      ]

abbrev pub come : Option Sample → ℕ
come none = 0
come (some x) = 1

-- How many interrupts come at `k` tests from the `n`-th on.
abbrev pub count : (k n : ℕ) → (ℕ → Option Sample) → ℕ
count zero n at_poll = 0
count (suc k) n at_poll = come (at_poll n) + count k (n + 1) at_poll

-- The calls of the handler that are still to come.
abbrev left : Rates → ℤ → ℕ
left r (pos i) = suc (lapic_cal_loops r) - i
left r (negsuc j) = suc (lapic_cal_loops r) + suc j

loops-lapic_cal_handler :
    (r : Rates) (x : Sample) (c : Cal) → (lapic_cal_handler r x c).loops ≡ succ c.loops
unfolding lapic_cal_handler
loops-lapic_cal_handler r x c = ground arith

left-succ : (r : Rates) (z : ℤ) (n : ℕ) → left r z ≤ 1 + n → left r (succ z) ≤ n
left-succ r (pos i) n h = omega arith
left-succ r (negsuc zero) n h = omega arith
left-succ r (negsuc (suc j)) n h = omega arith

left-none : (r : Rates) (z : ℤ) → left r z ≤ 0 → le_pos z (lapic_cal_loops r) ≡ false
left-none r (pos i) h = ground arith
left-none r (negsuc j) h = absurd (omega arith)

-- A call that is to come is made if an interrupt comes.
left-arrived :
    (r : Rates) (o : Option Sample) (c : Cal) (n : ℕ)
    → left r c.loops ≤ come o + n
    → left r (arrived r o c).loops ≤ n
left-arrived r none c n h = omega arith
left-arrived r (some x) c n h =
    subst (λ z. left r z ≤ n) (sym (loops-lapic_cal_handler r x c)) (left-succ r c.loops n h)

-- With as many interrupts as calls are to come, the loop ends.
interrupts-some :
    (k n : ℕ) (r : Rates) (at_poll : ℕ → Option Sample) (c : Cal)
    → left r c.loops ≤ count k n at_poll
    → (c' : Cal) × (interrupts (suc k) n r at_poll c ≡ some c')
unfolding interrupts
interrupts-some zero n r at_poll c h = (c, rw (left-none r c.loops h) refl)
interrupts-some (suc k) n r at_poll c h = elim (Bool-cases (le_pos c.loops (lapic_cal_loops r))) [
  | inr over ↦ (c, rw over refl)
  | inl within ↦ rw within (
      interrupts-some k (n + 1) r at_poll (arrived r (at_poll n) c)
        (left-arrived r (at_poll n) c (count k (n + 1) at_poll) h))
]

-- The verification ends: the loop may make a test more than those at which LAPIC_CAL_LOOPS + 2
-- interrupts come.
abbrev pub ComeEnough : Rates → Arrivals → Type 0
ComeEnough r irqs =
    (k : ℕ) × (irqs.polls ≡ suc k) × (lapic_cal_loops r + 2 ≤ count k 0 irqs.at_poll)

interrupts-Ends :
    (r : Rates) (irqs : Arrivals) (c : Cal)
    → ComeEnough r irqs
    → (c' : Cal) × (interrupts irqs.polls 0 r irqs.at_poll (at_loops (negsuc 0) c) ≡ some c')
interrupts-Ends r irqs c (k, enough, come) =
    let done = interrupts-some k 0 r irqs.at_poll (at_loops (negsuc 0) c) (omega arith) in
    (done.0, ap (λ p. interrupts p 0 r irqs.at_poll (at_loops (negsuc 0) c)) enough ∙ done.1)

or_not-false : (a b : Bool) → a || not b ≡ false → b ≡ true
or_not-false a b h = ground arith

or_not-true : (a b : Bool) → a ≡ false → a || not b ≡ true → b ≡ false
or_not-true a b real h = ground arith

is_still :
    (deltapm : ℕ) (g : Bool) → not (not (deltapm == 0)) && g ≡ true → (deltapm ≡ 0) × (g ≡ true)
is_still deltapm g h = (ground arith, ground arith)

is_trusted :
    {P : Type 0} (deltapm : ℕ) (g : Bool)
    → not (not (deltapm == 0)) && g ≡ false
    → (deltapm ≢ 0) ⊎ ((g ≡ false) ⊎ P)
is_trusted deltapm true h = inl (ground arith)
is_trusted deltapm false h = inr (inl refl)

module _ (d : Device) (def : ApicDef) (k : Kernel) (r : Rates) where
  -- The end of the function, where the period is long enough and the template filled.
  by_features-Outcome :
      (deltapm : ℕ) (t : Timing) (s : d.State)
      → 1000000 / r.hz ≤ t.lapic_timer_period
      → t.lapic_clockevent.mult ≡ k.scale (t.lapic_timer_period / 16)
      → (t.levt_is_dummy ≡ false → IsTrusted k r deltapm t.cal)
      → (t.levt_is_dummy ≡ true → IsRefuted k r deltapm t.cal)
      → IsOutcome k r deltapm (by_features d def k r (t, s)).0 (by_features d def k r (t, s)).1
  by_features-Outcome deltapm t s long filled good bad = elim (Bool-cases t.levt_is_dummy) [
    | inl dummy ↦ inr (ap not dummy, inr (dummy, bad dummy))
    | inr real ↦ inl (ap not real, long, filled, real, good real)
  ]

  -- The function returns, with an outcome, and with the template a dummy or not as `b` says.
  abbrev pub Ends : ℕ → Bool → Option (Bool × Timing × d.State) → Type 0
  Ends deltapm b o =
      (ok : Bool) × (t : Timing) × (s : d.State) × (o ≡ some (ok, t, s))
      × (t.lapic_clockevent.is_dummy ≡ b)
      × IsOutcome k r deltapm ok t

  -- Is the template filled, if there is a period?
  abbrev pub IsFilled : Timing → Type 0
  IsFilled t =
      0 < t.lapic_timer_period → t.lapic_clockevent.mult ≡ k.scale (t.lapic_timer_period / 16)

  lapic_init_clockevent-Filled : (t : Timing) → IsFilled (lapic_init_clockevent k t).1
  unfolding lapic_init_clockevent
  lapic_init_clockevent-Filled t = ground arith

  lapic_init_clockevent-dummy :
      (t : Timing)
      → (lapic_init_clockevent k t).1.lapic_clockevent.is_dummy ≡ t.lapic_clockevent.is_dummy
  unfolding lapic_init_clockevent
  lapic_init_clockevent-dummy t = ground arith

  lapic_init_clockevent-refused :
      (t : Timing) → t.lapic_timer_period ≡ 0 → (lapic_init_clockevent k t).0 ≡ false
  unfolding lapic_init_clockevent
  lapic_init_clockevent-refused t h = ground arith

  calibrate_by_pmtimer-referenced :
      (deltapm delta deltatsc : ℕ)
      → (calibrate_by_pmtimer k.do_div r deltapm delta deltatsc).referenced ≡ not (deltapm == 0)
  unfolding calibrate_by_pmtimer
  calibrate_by_pmtimer-referenced deltapm delta deltatsc = ground arith

  module _ (irqs : Arrivals) (small : r.hz ≤ 1000000) (come : ComeEnough r irqs) where
    verify-Ends :
        (deltapm : ℕ) (t : Timing) (s : d.State)
        → 1000000 / r.hz ≤ t.lapic_timer_period
        → t.lapic_clockevent.mult ≡ k.scale (t.lapic_timer_period / 16)
        → t.levt_is_dummy ≡ false
        → deltapm ≡ 0
        → k.has_global_clock_event ≡ true
        → Ends deltapm t.lapic_clockevent.is_dummy (finish d def k r (verify d def k r irqs t s))
    unfolding verify
    verify-Ends deltapm t s long filled real still other =
        let counted = interrupts-Ends r irqs t.cal come in
        let c : Cal = counted.0 in
        let t' : Timing = record t {
          cal = c;
          levt_is_dummy = t.levt_is_dummy || not (consistent r c);
        } in
        let started =
          lapic_timer_set_periodic d def k.has_deadline t.lapic_timer_period (levt d def k r t) s in
        let ended : d.State = lapic_timer_shutdown d def (levt d def k r t) started in
        let good = λ (h : t'.levt_is_dummy ≡ false).
          let x : IsTrusted k r deltapm c =
            inr (inr (consistent-IsConsistent r c (or_not-false _ _ h) small)) in
          x in
        let bad = λ (h : t'.levt_is_dummy ≡ true).
          let x : IsRefuted k r deltapm c =
            (still, other, not_consistent-IsInconsistent r c (or_not-true _ _ real h) small) in
          x in
        rw (counted.1)
          (_, _, _, refl, refl, by_features-Outcome deltapm t' ended long filled good bad)

    tail-Ends :
        (deltapm : ℕ) (u : Timing) (s : d.State)
        → 0 < 1000000 / r.hz
        → IsFilled u
        → let t = record u { levt_is_dummy = false } in
          Ends deltapm u.lapic_clockevent.is_dummy (
            if ltb u.lapic_timer_period (1000000 / r.hz)
            then some (false, u, s)
            else (if not (not (deltapm == 0)) && k.has_global_clock_event
                then finish d def k r (verify d def k r irqs t s)
                else some (by_features d def k r (t, s))))
    tail-Ends deltapm u s h filled =
        let t : Timing = record u { levt_is_dummy = false } in
        elim (Bool-cases (ltb u.lapic_timer_period (1000000 / r.hz))) [
          | inl slow ↦ rw slow (false, u, s, refl, refl, inr (refl, inl (ltb→lt _ _ slow)))
          | inr fast ↦
              let long : 1000000 / r.hz ≤ u.lapic_timer_period = ground arith in
              let ready : u.lapic_clockevent.mult ≡ k.scale (u.lapic_timer_period / 16) =
                filled (omega arith) in
              rw fast (elim (Bool-cases (not (not (deltapm == 0)) && k.has_global_clock_event)) [
                | inl checked ↦
                    let still = is_still deltapm k.has_global_clock_event checked in
                    rw checked (verify-Ends deltapm t s long ready refl still.0 still.1)
                | inr unchecked ↦
                    let good = λ (e : ◌≡◌ {A = Bool} false false).
                      let x : IsTrusted k r deltapm t.cal =
                        is_trusted deltapm k.has_global_clock_event unchecked in
                      x in
                    let bad = λ (e : ◌≡◌ {A = Bool} false true).
                      let x : IsRefuted k r deltapm t.cal = cc in x in
                    rw unchecked
                      (_, _, _, refl, refl, by_features-Outcome deltapm t s long ready good bad)
              ])
        ]

    evaluate-Ends :
        (t : Timing) (c : Cal) (s : d.State)
        → 0 < 1000000 / r.hz
        → Ends (sub64 c.pm2 c.pm1) t.lapic_clockevent.is_dummy (evaluate d def k r irqs t c s)
    unfolding evaluate
    evaluate-Ends t c s h =
        let deltapm : ℕ = sub64 c.pm2 c.pm1 in
        let x = calibrate_by_pmtimer k.do_div r deltapm (sub64 c.t1 c.t2) (sub64 c.tsc2 c.tsc1) in
        let u : Timing = record t { cal = c; lapic_timer_period = period_of r x.delta } in
        subst (λ b. Ends deltapm b (evaluate d def k r irqs t c s)) (lapic_init_clockevent-dummy u)
          (simp (calibrate_by_pmtimer-referenced deltapm (sub64 c.t1 c.t2) (sub64 c.tsc2 c.tsc1))
            (tail-Ends deltapm (lapic_init_clockevent k u).1 s h (lapic_init_clockevent-Filled u)))

    -- Calibration ends if the waits do: `p` gives where each wait ends, enough interrupts come
    -- where the result is verified, HZ is from 10 to 1000000, no deadline timer and no known
    -- period make it superfluous, and the loop's count is -1. Either it reports success, the
    -- period is at least 1000000 / HZ, the template has the factor for it, the device is no
    -- dummy, and nothing speaks against the result; or it reports a failure, and the period is
    -- shorter or the result refuted. The template is a dummy afterwards if it was one before.
    pub calibrate_apic_clock-Ends :
        {l : ℕ} (fuel : ℕ) (src : Source) (p : ℕ → At) (t : Timing) (s : d.State)
        → lapic_cal_loops r ≡ suc l
        → 0 < 1000000 / r.hz
        → ((n : ℕ) → wait_tick fuel src (p n) ≡ some (p (suc n)))
        → k.has_deadline ≡ false
        → t.lapic_timer_period ≡ 0
        → t.cal.loops ≡ negsuc 0
        → let m =
            measured r
              (suc l)
              (src.sample (p 2).polls)
              (src.sample (p (suc (suc (suc l)))).polls) in
          Ends (sub64 m.pm2 m.pm1) t.lapic_clockevent.is_dummy (
            calibrate_apic_clock d def k r fuel
              (suc (suc (suc (lapic_cal_loops r))))
              src
              (p 0)
              irqs
              t
              s)
    unfolding calibrate_apic_clock
    calibrate_apic_clock-Ends {l} fuel src p t s hz h ticks deadline unknown start =
        let fresh : at_loops (negsuc 0) t.cal ≡ t.cal = ap (λ z. at_loops z t.cal) (sym start) in
        let m : Cal =
          measured r (suc l) (src.sample (p 2).polls) (src.sample (p (suc (suc (suc l)))).polls) in
        let polled : poll_loop fuel (suc (suc (suc (lapic_cal_loops r)))) r src (p 0) t.cal
            ≡ some (m, p (suc (suc (suc l)))) =
          ap (poll_loop fuel (suc (suc (suc (lapic_cal_loops r)))) r src (p 0)) (sym fresh)
          ∙ ap (λ n. poll_loop fuel (suc (suc (suc n))) r src (p 0) (at_loops (negsuc 0) t.cal)) hz
          ∙ poll_loop-ticks r hz fuel src p ticks t.cal in
        let counting : d.State = setup_apic_lvtt d def false 0xffffffff false false s in
        simp (deadline, lapic_init_clockevent-refused t unknown, polled)
          (evaluate-Ends t m counting h)
