-- ===== src/Apic/Calibrate/Correction.antt =====
-- What the ACPI timer makes of the measured counts.
use resume_from_edk2_tooling.Base.{
  ℕ, ◌+◌, ◌-◌, ◌*◌, ◌/◌, ◌%◌, ◌^◌, ◌≤◌, ◌<◌, ◌≡◌, refl, ap, ◌∙◌, ◌⊎◌, inl, inr, true, false, ◌&&◌,
  arith, ltb, ◌==◌, Bool-cases,
}
use native.Mathlib.Nat.{div-mul-le_self, lt-div-mul-add, mod-eq_of_lt}
use resume_from_edk2_tooling.Apic.Calibrate.Handler.{Rates, signed_lt}
use resume_from_edk2_tooling.Apic.Calibrate.PmTimer.{pm_100ms, pm_thresh, calibrate_by_pmtimer}

-- On numbers below 2^63 the signed order is that of the numbers.
signed_lt-ltb : (a b : ℕ) → a < 2 ^ 63 → b < 2 ^ 63 → signed_lt a b ≡ ltb a b
signed_lt-ltb a b ha hb =
    let ea : (a + 2 ^ 63) % 2 ^ 64 ≡ a + 2 ^ 63 = omega arith in
    let eb : (b + 2 ^ 63) % 2 ^ 64 ≡ b + 2 ^ 63 = omega arith in rw (ea, eb) (ground arith)

-- Nearer to 100 ms than one percent of it, which is a thousandth of the rate, and elsewhere.
abbrev pub IsClose : Rates → ℕ → Type 0
IsClose r deltapm =
    let ticks : ℕ = r.pmtmr_ticks_per_sec / 10 in
    let percent : ℕ = r.pmtmr_ticks_per_sec / 1000 in
    (ticks - percent < deltapm) × (deltapm < ticks + percent)

abbrev pub IsFar : Rates → ℕ → Type 0
IsFar r deltapm =
    let ticks : ℕ = r.pmtmr_ticks_per_sec / 10 in
    let percent : ℕ = r.pmtmr_ticks_per_sec / 1000 in
    (deltapm ≤ ticks - percent) ⊎ (ticks + percent ≤ deltapm)

-- `x` is `delta` at 100 ms for each `deltapm`, rounded down.
abbrev pub IsScaled : Rates → (deltapm delta x : ℕ) → Type 0
IsScaled r deltapm delta x =
    let whole = delta * (r.pmtmr_ticks_per_sec / 10) in
    (x * deltapm ≤ whole) × (whole < x * deltapm + deltapm)

both : (a b x : ℕ) → ltb a x && ltb x b ≡ true → (a < x) × (x < b)
both a b x h = (ground arith, ground arith)

neither : (a b x : ℕ) → ltb a x && ltb x b ≡ false → (x ≤ a) ⊎ (b ≤ x)
neither a b x h = ground arith

-- If the ACPI timer runs (its difference is a 32-bit number and not 0), its rate is a 32-bit
-- number, `delta` times the ticks of 100 ms fits in a word, and do_div divides, then the timer is
-- taken as a reference: either its difference is within one percent of 100 ms and `delta` is
-- kept, or it is not and `delta` becomes its value at 100 ms, rounded down.
pub calibrate_by_pmtimer-IsScaled :
    (do_div : ℕ → ℕ → ℕ) (r : Rates) (deltapm delta deltatsc : ℕ)
    → ((n b : ℕ) → 0 < b → b < 2 ^ 32 → do_div n b ≡ n / b)
    → 0 < deltapm
    → deltapm < 2 ^ 32
    → r.pmtmr_ticks_per_sec < 2 ^ 32
    → delta * (r.pmtmr_ticks_per_sec / 10) < 2 ^ 64
    → let x = calibrate_by_pmtimer do_div r deltapm delta deltatsc in
      (x.referenced ≡ true)
      × ((IsClose r deltapm × (x.delta ≡ delta))
          ⊎ (IsFar r deltapm × IsScaled r deltapm delta x.delta))
unfolding calibrate_by_pmtimer
calibrate_by_pmtimer-IsScaled do_div r deltapm delta deltatsc h low high rate fits =
    let there : (deltapm == 0) ≡ false = ground arith in
    let small : pm_100ms r + pm_thresh r < 2 ^ 63 = omega arith in
    let lower : signed_lt (pm_100ms r - pm_thresh r) deltapm
        ≡ ltb (pm_100ms r - pm_thresh r) deltapm =
      signed_lt-ltb (pm_100ms r - pm_thresh r) deltapm (omega arith) (omega arith) in
    let upper : signed_lt deltapm (pm_100ms r + pm_thresh r)
        ≡ ltb deltapm (pm_100ms r + pm_thresh r) =
      signed_lt-ltb deltapm (pm_100ms r + pm_thresh r) (omega arith) small in
    let word : delta * pm_100ms r % 2 ^ 64 ≡ delta * pm_100ms r = mod-eq_of_lt fits in
    let quotient : do_div (delta * pm_100ms r % 2 ^ 64) deltapm ≡ delta * pm_100ms r / deltapm =
      h _ deltapm low high ∙ ap (λ n. n / deltapm) word in
    let percent : pm_thresh r ≡ r.pmtmr_ticks_per_sec / 1000 = omega arith in
    let in_thousandths =
      λ (h : ltb (pm_100ms r - pm_thresh r) deltapm && ltb deltapm (pm_100ms r + pm_thresh r)
          ≡ true).
        let x : IsClose r deltapm = rw (← percent) (both _ _ _ h) in x in
    let out_of_thousandths =
      λ (h : ltb (pm_100ms r - pm_thresh r) deltapm && ltb deltapm (pm_100ms r + pm_thresh r)
          ≡ false).
        let x : IsFar r deltapm = rw (← percent) (neither _ _ _ h) in x in
    elim (Bool-cases
      (ltb (pm_100ms r - pm_thresh r) deltapm && ltb deltapm (pm_100ms r + pm_thresh r))) [
        | inl close ↦ rw (there, lower, upper, close) (refl, inl (in_thousandths close, refl))
        | inr far ↦
            rw (there, lower, upper, far, quotient)
              (
                refl,
                inr (
                  out_of_thousandths far,
                  (
                    div-mul-le_self (delta * pm_100ms r) deltapm,
                    lt-div-mul-add {a = delta * pm_100ms r} {b = deltapm} low,
                  ),
                ),
              )
      ]
