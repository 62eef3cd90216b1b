-- ===== src/Tests/CalibrateTests.antt =====
-- A timer calibrated at 100 Hz by a TSC that moves by a tick at each poll.
use resume_from_edk2_tooling.Base.{
  ◌&&◌, ◌||◌, ℕ, suc, ◌+◌, ◌-◌, ◌*◌, ◌/◌, ◌%◌, ◌^◌, ◌≡◌, refl, ◌⊎◌, true, false, some, arith, [],
  ◌∷◌, if◌then◌else◌, ◌==◌, none,
}
use resume_from_edk2_tooling.Base.Int.{negsuc}
use resume_from_edk2_tooling.Apic.Device.{Reg}
use resume_from_edk2_tooling.Apic.Calibrate.Handler.{Rates, Sample, Cal}
use resume_from_edk2_tooling.Apic.Calibrate.Polled.{Source, At, wait_tick, poll_loop, elapsed}
use resume_from_edk2_tooling.Apic.Calibrate.PmTimer.{calibrate_by_pmtimer}
use resume_from_edk2_tooling.Apic.Calibrate.Correction.{
  IsClose, IsFar, IsScaled, calibrate_by_pmtimer-IsScaled,
}
use resume_from_edk2_tooling.Apic.Calibrate.Clock.{Kernel, Timing, Arrivals}
use resume_from_edk2_tooling.Apic.Calibrate.Ticks.{at_loops, measured, poll_loop-ticks}
use resume_from_edk2_tooling.Apic.Deadline.Errata.{
  first_match, is_current, apic_validate_deadline_timer-Required,
}
use resume_from_edk2_tooling.Apic.Deadline.{
  broadwell_d, deadline_match, BootCpu, apic_validate_deadline_timer, ThisCpu, Clocked,
  lapic_clockevent, setup_boot_apic_clock,
}
use resume_from_edk2_tooling.Apic.Deadline.Registered.{IsInstead, setup_boot_apic_clock-disabled}
use resume_from_edk2_tooling.Apic.Deadline.Secondary.{
  AllClocks, secondary_clocks, secondary_clocks-AllClocks,
}
use resume_from_edk2_tooling.Tests.DeviceTests.{board, manual, powered}

abbrev rates : Rates
rates = record { hz = 100; pmtmr_ticks_per_sec = 3579545; acpi_pm_ovrrun = 2 ^ 24; has_tsc = true }

-- The ACPI timer stands still.
abbrev reading : ℕ → Sample
reading n = record { tapic = 2 ^ 32 - 1 - 1000000 * n; tsc = n; pm = 0; jiffies = n }

abbrev source : Source
source = record { by_tsc = true; perj = 1; clock = λ n. n % 2 ^ 64; sample = reading }

abbrev place : ℕ → At
place k = record { since = k % 2 ^ 64; polls = k + 1 }

ticking : (k : ℕ) → wait_tick 1 source (place k) ≡ some (place (suc k))
unfolding wait_tick
ticking k =
    let now : elapsed source ((k + 1) % 2 ^ 64) (k % 2 ^ 64) ≡ true = ground arith in
    let next : (k % 2 ^ 64 + 1) % 2 ^ 64 ≡ suc k % 2 ^ 64 = omega arith in
    let after : k + 1 + 1 ≡ suc k + 1 = omega arith in rw (now, next, after) refl

abbrev uncounted : Cal
uncounted = record {
  loops = negsuc 0;
  t1 = 0;
  t2 = 0;
  tsc1 = 0;
  tsc2 = 0;
  pm1 = 0;
  pm2 = 0;
  j1 = 0;
  j2 = 0;
}

poll_loop-ticks_example :
    poll_loop 1 13 rates source (place 0) (at_loops (negsuc 0) uncounted)
    ≡ some (measured rates 10 (reading 3) (reading 13), place 12)
poll_loop-ticks_example = poll_loop-ticks rates refl 1 source place ticking uncounted

-- The ACPI timer shows 50 ms where 100 ms were waited for, and the count is doubled.
calibrate_by_pmtimer-IsScaled_example :
    ((calibrate_by_pmtimer ◌/◌ rates 178977 1000000 0).referenced ≡ true)
    × ((IsClose rates 178977 × ((calibrate_by_pmtimer ◌/◌ rates 178977 1000000 0).delta ≡ 1000000))
        ⊎ (IsFar rates 178977
            × IsScaled rates 178977 1000000
                (calibrate_by_pmtimer ◌/◌ rates 178977 1000000 0).delta))
calibrate_by_pmtimer-IsScaled_example =
    calibrate_by_pmtimer-IsScaled ◌/◌ rates 178977 1000000 0 (λ n b h h'. refl) (omega arith)
      (omega arith) (omega arith) (omega arith)

abbrev kernel : Kernel
kernel = record {
  do_div = ◌/◌;
  scale = λ x. x * 4;
  delta2ns = λ mult ticks. ticks * mult;
  has_deadline = false;
  has_global_clock_event = true;
}

abbrev unset : Timing
unset = record {
  lapic_timer_period = 0;
  lapic_clockevent = lapic_clockevent;
  levt_is_dummy = false;
  cal = uncounted;
}

abbrev cpu0 : ThisCpu
cpu0 = record { has_arat = true; has_tsc_deadline = false; tsc_khz = 2000000; processor_id = 0 }

abbrev modern_cpu0 : ThisCpu
modern_cpu0 = record cpu0 { has_tsc_deadline = true }

-- An interrupt at every other test.
abbrev every_other : Arrivals
every_other = record {
  polls = 30;
  at_poll = λ n. if n % 2 == 1 then some (reading (n / 2)) else none;
}

setup_boot_apic_clock-disabled_example :
    (y : Clocked (Reg → ℕ)) × (setup_boot_apic_clock board manual
        (λ s. s)
        kernel
        rates
        1
        13
        source
        (place 0)
        every_other
        true
        2
        modern_cpu0
        unset
        powered
      ≡ some y)
    × (y.apic ≡ powered)
    × (y.timing.lapic_clockevent.is_dummy ≡ true)
    × (y.timing.levt_is_dummy ≡ false)
    × IsInstead modern_cpu0 (y.registered)
setup_boot_apic_clock-disabled_example =
    setup_boot_apic_clock-disabled board manual (λ s. s) kernel rates 1 13 source (place 0)
      every_other 2 modern_cpu0 unset powered (omega arith) refl

-- A broadwell_d of stepping 3 with old microcode.
abbrev old_cpu : BootCpu
old_cpu = record { has_deadline = true; has_hypervisor = false; microcode = 0x07000000 }

apic_validate_deadline_timer-Required_example :
    ((apic_validate_deadline_timer (first_match broadwell_d 3) old_cpu).0
      ≡ (true && (false || is_current broadwell_d 3 0x07000000 deadline_match)))
    × ((apic_validate_deadline_timer (first_match broadwell_d 3) old_cpu).1.has_deadline
        ≡ (apic_validate_deadline_timer (first_match broadwell_d 3) old_cpu).0)
apic_validate_deadline_timer-Required_example =
    apic_validate_deadline_timer-Required (first_match broadwell_d 3) broadwell_d 3 old_cpu refl

old_refused : is_current broadwell_d 3 0x07000000 deadline_match ≡ false
unfolding is_current
old_refused = refl

-- A template that the boot processor has calibrated, and two more processors.
abbrev calibrated_unset : Timing
calibrated_unset = record unset {
  lapic_clockevent = record lapic_clockevent {
    is_dummy = false;
    mult = 4000;
    max_delta_ticks = 0x7FFFFFFF;
  };
}

secondary_clocks-AllClocks_example :
    AllClocks board manual
      (λ s. s)
      calibrated_unset.lapic_clockevent
      (secondary_clocks board manual
        (λ s. s)
        ((cpu0, powered) ∷ (modern_cpu0, powered) ∷ [])
        calibrated_unset)
secondary_clocks-AllClocks_example =
    secondary_clocks-AllClocks board manual (λ s. s) ((cpu0, powered) ∷ (modern_cpu0, powered) ∷ [])
      calibrated_unset
