-- ===== src/Apic/Calibrate/Handler.antt =====
-- `lapic_cal_handler` of linux/arch/x86/kernel/apic/apic.c and its variables. A C `long` is a
-- 64-bit word, in two's complement.
use resume_from_edk2_tooling.Base.{
  ℕ, suc, ◌+◌, ◌-◌, ◌/◌, ◌%◌, ◌^◌, Bool, true, false, ◌==◌, ltb, leb, if◌then◌else◌,
}
use resume_from_edk2_tooling.Base.Int.{ℤ, pos, negsuc}

-- Subtraction and the signed order on 64-bit words.
abbrev pub sub64 : ℕ → ℕ → ℕ
sub64 a b = (a + 2 ^ 64 - b) % 2 ^ 64

abbrev pub signed_lt : ℕ → ℕ → Bool
signed_lt a b = ltb ((a + 2 ^ 63) % 2 ^ 64) ((b + 2 ^ 63) % 2 ^ 64)

-- HZ is a constant of the build, PMTMR_TICKS_PER_SEC and ACPI_PM_OVRRUN belong to the ACPI timer.
pub record Rates : Type 0 where
  pub hz : ℕ
  pub pmtmr_ticks_per_sec : ℕ
  pub acpi_pm_ovrrun : ℕ
  pub has_tsc : Bool

-- LAPIC_CAL_LOOPS
abbrev pub lapic_cal_loops : Rates → ℕ
lapic_cal_loops r = r.hz / 10

-- What the hardware shows when the handler runs: the APIC's count, the TSC, the ACPI timer, jiffies.
pub record Sample : Type 0 where
  pub tapic : ℕ
  pub tsc : ℕ
  pub pm : ℕ
  pub jiffies : ℕ

-- `lapic_cal_loops` and the variables beside it.
pub record Cal : Type 0 where
  pub loops : ℤ
  pub t1 : ℕ
  pub t2 : ℕ
  pub tsc1 : ℕ
  pub tsc2 : ℕ
  pub pm1 : ℕ
  pub pm2 : ℕ
  pub j1 : ℕ
  pub j2 : ℕ

abbrev pub succ : ℤ → ℤ
succ (pos n) = pos (suc n)
succ (negsuc ℕ.zero) = pos 0
succ (negsuc (suc n)) = negsuc n

abbrev pub is_pos : ℤ → ℕ → Bool
is_pos (pos n) m = n == m
is_pos (negsuc n) m = false

abbrev pub le_pos : ℤ → ℕ → Bool
le_pos (pos n) m = leb n m
le_pos (negsuc n) m = true

abbrev pub first_sample : Rates → Sample → Cal → Cal
first_sample r x c = record c {
  t1 = x.tapic;
  tsc1 = if r.has_tsc then x.tsc else 0;
  pm1 = x.pm;
  j1 = x.jiffies;
}

abbrev pub last_sample : Rates → Sample → Cal → Cal
last_sample r x c = record c {
  t2 = x.tapic;
  tsc2 = if r.has_tsc then x.tsc else 0;
  pm2 = if ltb x.pm c.pm1 then (x.pm + r.acpi_pm_ovrrun) % 2 ^ 64 else x.pm;
  j2 = x.jiffies;
}

unfoldable pub lapic_cal_handler : Rates → Sample → Cal → Cal
lapic_cal_handler r x c =
    let next = record c { loops = succ c.loops } in
    if is_pos c.loops 0
    then first_sample r x next
    else (if is_pos c.loops (lapic_cal_loops r) then last_sample r x next else next)
