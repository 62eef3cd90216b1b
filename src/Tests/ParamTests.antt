-- ===== src/Tests/ParamTests.antt =====
-- Parameters given to a kernel with default settings.
use resume_from_edk2_tooling.Base.{◌≡◌, refl, Bool, true, false, Option, none, some, ◌≡◌}
use resume_from_edk2_tooling.Apic.Mode.{
  Setup, extnmi_bsp, apic_intr_mode_select, choose_intr_mode, chosen, pic,
}
use resume_from_edk2_tooling.Apic.Params.{
  apic_set_verbosity, einval, setup_disableapic, Strings, Flags, quiet, Literal, lit_all,
  setup_disableapic,
}
use resume_from_edk2_tooling.Tests.TimerTests.{smp}

abbrev defaults : Flags
defaults = record {
  disable_apic = false;
  has_apic = true;
  has_tsc_deadline = true;
  apic_calibrate_pmtmr = false;
  local_apic_timer_c2_ok = false;
  disable_apic_timer = false;
  skip_ioapic_setup = false;
  apic_verbosity = quiet;
  disabled_cpu_apicid = 0xffff;
  apic_extnmi = extnmi_bsp;
}

abbrev without_apic : Setup
without_apic = record smp { disable_apic = true; has_apic = false }

-- Strings given by the literal that they are, or by none; no string holds a number.
abbrev same_literal : Literal → Option Literal → Bool
same_literal a none = false
same_literal lit_all (some lit_all) = true
same_literal a (some b) = false

abbrev strings : Strings (Option Literal)
strings = record { equals = same_literal; starts_with = same_literal; get_option = λ _. none }

disabled : (setup_disableapic defaults).1.disable_apic ≡ true
unfolding setup_disableapic
disabled = refl

disabled_choice :
    apic_intr_mode_select without_apic ≡ chosen pic (record without_apic { apic_intr_mode = pic })
unfolding apic_intr_mode_select choose_intr_mode
disabled_choice = refl

no_verbosity : (apic_set_verbosity strings (some (some lit_all)) defaults).0 ≡ einval
unfolding apic_set_verbosity
no_verbosity = refl
