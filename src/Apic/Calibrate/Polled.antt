-- ===== src/Apic/Calibrate/Polled.antt =====
-- The loops of `calibrate_APIC_clock` in linux/arch/x86/kernel/apic/apic.c. Its clock is the TSC
-- where the frequency is known, and jiffies elsewhere: `clock n` is what the n-th poll reads, and
-- `sample n` what the handler reads if the wait ends before poll `n`.
use resume_from_edk2_tooling.Base.{
  ℕ, zero, suc, ◌+◌, ◌%◌, ◌^◌, Bool, not, Option, none, some, leb, if◌then◌else◌,
}
use resume_from_edk2_tooling.Apic.Calibrate.Handler.{
  sub64, signed_lt, Rates, lapic_cal_loops, Sample, Cal, le_pos, lapic_cal_handler,
}

-- `by_tsc` says that `tsc_khz` is not 0; `perj` are the TSC's cycles in a tick.
pub record Source : Type 0 where
  pub by_tsc : Bool
  pub perj : ℕ
  pub clock : ℕ → ℕ
  pub sample : ℕ → Sample

-- Where the wait is: the clock at the last tick, and the polls made.
pub record At : Type 0 where
  pub since : ℕ
  pub polls : ℕ

-- Has a tick elapsed? With jiffies this is `time_after`.
abbrev pub elapsed : Source → ℕ → ℕ → Bool
elapsed src now since =
    if src.by_tsc then leb src.perj (sub64 now since) else signed_lt (sub64 since now) 0

abbrev pub next_since : Source → ℕ → ℕ → ℕ
next_since src now since = if src.by_tsc then (since + src.perj) % 2 ^ 64 else now

-- The inner loop: it goes on from the poll that sees a tick; `none` means that the fuel ran out.
unfoldable pub wait_tick : (fuel : ℕ) → Source → At → Option At
wait_tick zero src a = none
wait_tick (suc fuel) src a =
    let now = src.clock a.polls in
    let later = wait_tick fuel src (record a { polls = a.polls + 1 }) in
    if elapsed src now a.since
    then some (record { since = next_since src now a.since; polls = a.polls + 1 })
    else later

abbrev pub on_tick {ℓ} : {X : Type ℓ} → Option At → (At → Option X) → Option X
on_tick none k = none
on_tick (some a) k = k a

-- The outer loop: rounds of a wait and a call of the handler.
unfoldable pub poll_loop : (fuel rounds : ℕ) → Rates → Source → At → Cal → Option (Cal × At)
poll_loop fuel zero r src a c = none
poll_loop fuel (suc rounds) r src a c =
    if not (le_pos c.loops (lapic_cal_loops r))
    then some (c, a)
    else on_tick (wait_tick fuel src a)
        λ b. poll_loop fuel rounds r src b (lapic_cal_handler r (src.sample b.polls) c)
