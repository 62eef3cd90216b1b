-- ===== src/Apic/Calibrate/Ticks.antt =====
-- What the polling loop measures: the handler's two samples lie LAPIC_CAL_LOOPS ticks apart.
use resume_from_edk2_tooling.Base.{
  ℕ, zero, suc, ◌+◌, ◌≤◌, ◌≡◌, arith, ◌==◌, leb, ltb, ◌%◌, ◌^◌, if◌then◌else◌, true, false, some,
}
use resume_from_edk2_tooling.Base.Int.{ℤ, pos, negsuc}
use resume_from_edk2_tooling.Apic.Calibrate.Handler.{
  Rates, lapic_cal_loops, Sample, Cal, first_sample, last_sample, lapic_cal_handler,
}
use resume_from_edk2_tooling.Apic.Calibrate.Polled.{Source, At, wait_tick, poll_loop}

-- The variables with `lapic_cal_loops` at a value.
abbrev pub at_loops : ℤ → Cal → Cal
at_loops l c = record c { loops = l }

-- What both loops leave: the values of a first sample and of a last one, the ACPI timer's last
-- value with the overrun added where it is below the first, and a count that ends them.
abbrev pub measured : Rates → ℕ → (first last : Sample) → Cal
measured r l first last = record {
  loops = pos (suc l);
  t1 = first.tapic;
  t2 = last.tapic;
  tsc1 = if r.has_tsc then first.tsc else 0;
  tsc2 = if r.has_tsc then last.tsc else 0;
  pm1 = first.pm;
  pm2 = if ltb last.pm first.pm then (last.pm + r.acpi_pm_ovrrun) % 2 ^ 64 else last.pm;
  j1 = first.jiffies;
  j2 = last.jiffies;
}

module _ (r : Rates) {l : ℕ} (hz : lapic_cal_loops r ≡ suc l) where
  module _ (fuel : ℕ) (src : Source) (p : ℕ → At)
      (ticks : (k : ℕ) → wait_tick fuel src (p k) ≡ some (p (suc k))) where
    poll_rest :
        (j i : ℕ) (c : Cal)
        → 1 ≤ i
        → i + j ≡ suc l
        → poll_loop fuel (suc (suc j)) r src (p (suc i)) (at_loops (pos i) c)
          ≡ some (
            at_loops
                (pos (suc (suc l)))
                (last_sample r (src.sample (p (suc (suc (suc l)))).polls) c),
            p (suc (suc (suc l))),
          )
    unfolding poll_loop lapic_cal_handler
    poll_rest zero i c low e =
        let last : i ≡ suc l = omega arith in
        let within : leb i (lapic_cal_loops r) ≡ true = ground (arith, hz) in
        let started : (i == 0) ≡ false = ground arith in
        let here : (i == lapic_cal_loops r) ≡ true = ground (arith, hz) in
        let ended : leb (suc i) (lapic_cal_loops r) ≡ false = ground (arith, hz) in
        rw (within, ticks (suc i), started, here, ended, last)
    poll_rest (suc j) i c low e =
        let within : leb i (lapic_cal_loops r) ≡ true = ground (arith, hz) in
        let started : (i == 0) ≡ false = ground arith in
        let before : (i == lapic_cal_loops r) ≡ false = ground (arith, hz) in
        rw (within, ticks (suc i), started, before)
          (poll_rest j (suc i) c (omega arith) (omega arith))

    -- The polling loop ends if the waits do: where `p` gives where each wait ends, a wait from there
    -- ends within the fuel, and HZ is at least 10, LAPIC_CAL_LOOPS + 3 rounds are enough, and the
    -- variables then hold what the hardware showed at the second tick and at the one that comes
    -- LAPIC_CAL_LOOPS ticks later, whatever they held before; 0 for the TSC where there is none, and
    -- the overrun added to the ACPI timer's last value where that is below its first.
    pub poll_loop-ticks :
        (c : Cal)
        → poll_loop fuel (suc (suc (suc (suc l)))) r src (p 0) (at_loops (negsuc 0) c)
          ≡ some (
            measured r (suc l) (src.sample (p 2).polls) (src.sample (p (suc (suc (suc l)))).polls),
            p (suc (suc (suc l))),
          )
    unfolding poll_loop lapic_cal_handler
    poll_loop-ticks c =
        let within : leb 0 (lapic_cal_loops r) ≡ true = ground (arith, hz) in
        rw (ticks 0, within, ticks 1)
          (poll_rest l 1 (first_sample r (src.sample (p 2).polls) c) (omega arith) (omega arith))
