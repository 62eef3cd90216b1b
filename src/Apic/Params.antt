-- ===== src/Apic/Params.antt =====
-- The parsers of kernel parameters in linux/arch/x86/kernel/apic/apic.c, of a 64-bit kernel.
-- `strcmp`, `strncmp` and `get_option` belong to the C library and the kernel's: an argument says
-- which literals a string equals or starts with, and which number it holds.
pub mod Effects
use resume_from_edk2_tooling.Base.{ℕ, Bool, true, false, Option, none, some, if◌then◌else◌}
use resume_from_edk2_tooling.Apic.Mode.{Extnmi, extnmi_bsp, extnmi_all, extnmi_none}

-- The literals of the parsers: "notscdeadline", "debug", "verbose", "all", "none" and "bsp".
pub data Literal : Type 0 where
  lit_notscdeadline lit_debug lit_verbose lit_all lit_none lit_bsp : Literal

pub record Strings (Str : Type 0) : Type 0 where
  pub equals : Literal → Str → Bool
  pub starts_with : Literal → Str → Bool
  pub get_option : Str → Option ℕ

pub data Verbosity : Type 0 where
  quiet verbose debug : Verbosity

-- The variables that the parsers set; `has_apic` and `has_tsc_deadline` are CPU capabilities.
pub record Flags : Type 0 where
  pub disable_apic : Bool
  pub has_apic : Bool
  pub has_tsc_deadline : Bool
  pub apic_calibrate_pmtmr : Bool
  pub local_apic_timer_c2_ok : Bool
  pub disable_apic_timer : Bool
  pub skip_ioapic_setup : Bool
  pub apic_verbosity : Verbosity
  pub disabled_cpu_apicid : ℕ
  pub apic_extnmi : Extnmi

pub data Status : Type 0 where
  accepted : Status
  einval : Status

unfoldable pub setup_disableapic : Flags → Status × Flags
setup_disableapic f = (accepted, record f { disable_apic = true; has_apic = false })

abbrev pub setup_nolapic : Flags → Status × Flags
setup_nolapic f = setup_disableapic f

unfoldable pub setup_apicpmtimer : Flags → Status × Flags
setup_apicpmtimer f = (accepted, record f { apic_calibrate_pmtmr = true })

unfoldable pub parse_lapic_timer_c2_ok : Flags → Status × Flags
parse_lapic_timer_c2_ok f = (accepted, record f { local_apic_timer_c2_ok = true })

unfoldable pub parse_disable_apic_timer : Flags → Status × Flags
parse_disable_apic_timer f = (accepted, record f { disable_apic_timer = true })

unfoldable pub parse_nolapic_timer : Flags → Status × Flags
parse_nolapic_timer f = (accepted, record f { disable_apic_timer = true })

abbrev pub put_apicid : Option ℕ → Flags → Status × Flags
put_apicid none f = (einval, f)
put_apicid (some n) f = (accepted, record f { disabled_cpu_apicid = n })

-- `none` is a parameter without a value.
module _ {Str : Type 0} (lib : Strings Str) where
  unfoldable pub parse_lapic : Option Str → Flags → Status × Flags
  parse_lapic none f = (accepted, f)
  parse_lapic (some arg) f =
      if lib.starts_with lit_notscdeadline arg
      then (accepted, record f { has_tsc_deadline = false })
      else (accepted, f)

  unfoldable pub apic_set_verbosity : Option Str → Flags → Status × Flags
  apic_set_verbosity none f = (accepted, record f { skip_ioapic_setup = false })
  apic_set_verbosity (some arg) f =
      if lib.equals lit_debug arg
      then (accepted, record f { apic_verbosity = debug })
      else (if lib.equals lit_verbose arg
          then (accepted, record f { apic_verbosity = verbose })
          else (einval, f))

  unfoldable pub apic_set_disabled_cpu_apicid : Option Str → Flags → Status × Flags
  apic_set_disabled_cpu_apicid none f = (einval, f)
  apic_set_disabled_cpu_apicid (some arg) f = put_apicid (lib.get_option arg) f

  unfoldable pub apic_set_extnmi : Option Str → Flags → Status × Flags
  apic_set_extnmi none f = (einval, f)
  apic_set_extnmi (some arg) f =
      if lib.starts_with lit_all arg
      then (accepted, record f { apic_extnmi = extnmi_all })
      else if lib.starts_with lit_none arg
      then (accepted, record f { apic_extnmi = extnmi_none })
      else (if lib.starts_with lit_bsp arg
          then (accepted, record f { apic_extnmi = extnmi_bsp })
          else (einval, f))
