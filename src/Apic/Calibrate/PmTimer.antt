-- ===== src/Apic/Calibrate/PmTimer.antt =====
-- `calibrate_by_pmtimer` of linux/arch/x86/kernel/apic/apic.c, with CONFIG_X86_PM_TIMER. The
-- kernel's `do_div` is an argument; what is only printed is left out.
use resume_from_edk2_tooling.Base.{
  ℕ, ◌+◌, ◌-◌, ◌*◌, ◌/◌, ◌%◌, ◌^◌, Bool, true, false, ◌&&◌, ◌==◌, if◌then◌else◌,
}
use resume_from_edk2_tooling.Apic.Calibrate.Handler.{Rates, signed_lt}

abbrev pub pm_100ms : Rates → ℕ
pm_100ms r = r.pmtmr_ticks_per_sec / 10

abbrev pub pm_thresh : Rates → ℕ
pm_thresh r = pm_100ms r / 100

-- Has the timer been there (the function returned 0), `*delta` and `*deltatsc`?
pub record Deltas : Type 0 where
  pub referenced : Bool
  pub delta : ℕ
  pub deltatsc : ℕ

module _ (do_div : ℕ → ℕ → ℕ) where
  abbrev pub scaled : Rates → (deltapm x : ℕ) → ℕ
  scaled r deltapm x = do_div (x * pm_100ms r % 2 ^ 64) deltapm

  unfoldable pub calibrate_by_pmtimer : Rates → (deltapm delta deltatsc : ℕ) → Deltas
  calibrate_by_pmtimer r deltapm delta deltatsc =
      if deltapm == 0
      then record { referenced = false; delta = delta; deltatsc = deltatsc }
      else if signed_lt (pm_100ms r - pm_thresh r) deltapm
          && signed_lt deltapm (pm_100ms r + pm_thresh r)
      then record { referenced = true; delta = delta; deltatsc = deltatsc }
      else record {
        referenced = true;
        delta = scaled r deltapm delta;
        deltatsc = if r.has_tsc then scaled r deltapm deltatsc else deltatsc;
      }
