-- ===== src/Apic/Detect.antt =====
-- `apic_verify`, `apic_force_enable` and `detect_init_APIC` of linux/arch/x86/kernel/apic/apic.c
-- in a 32-bit kernel.
pub mod Address
use resume_from_edk2_tooling.Base.{
  ℕ, bit_and, bit_or, Bool, true, false, not, ◌&&◌, ◌||◌, ltb, leb, ◌==◌, if◌then◌else◌,
}
use resume_from_edk2_tooling.Apic.Device.{ApicDef, not32}

pub data Vendor : Type 0 where
  amd hygon intel other : Vendor

-- `boot_cpu_data`, the kernel's options, APIC_DEFAULT_PHYS_BASE, and whether cpuid shows an APIC
-- at a value of the low half of MSR_IA32_APICBASE.
pub record Found : Type 0 where
  pub vendor : Vendor
  pub x86 : ℕ
  pub x86_model : ℕ
  pub disable_apic : Bool
  pub force_enable_local_apic : Bool
  pub default_phys_base : ℕ
  pub cpuid_apic : ℕ → Bool

-- The low half of the MSR, the feature bit that the kernel keeps, and the variables set here;
-- `active` is that of `apic_pm_state`.
pub record Detection : Type 0 where
  pub base : ℕ
  pub has_apic : Bool
  pub mp_lapic_addr : ℕ
  pub enabled_via_apicbase : Bool
  pub active : Bool

-- The Booleans say that 0 is returned.
module _ (def : ApicDef) (f : Found) where
  abbrev pub is_enabled : ℕ → Bool
  is_enabled base = not (bit_and base def.apicbase_enable == 0)

  abbrev pub placed : Detection → ℕ
  placed s =
      if leb 6 f.x86
      then (if is_enabled s.base then bit_and s.base def.apicbase_base else f.default_phys_base)
      else f.default_phys_base

  unfoldable pub apic_verify : Detection → Bool × Detection
  apic_verify s =
      if not (f.cpuid_apic s.base)
      then (false, s)
      else (true, record s { has_apic = true; mp_lapic_addr = placed s })

  -- The BIOS has left the APIC off, and it can be switched on.
  abbrev pub reenabled : (addr : ℕ) → Detection → Detection
  reenabled addr s =
      if leb 6 f.x86
      then (if not (is_enabled s.base)
          then record s {
            base =
                bit_or (bit_and s.base (not32 def.apicbase_base)) (bit_or def.apicbase_enable addr);
            enabled_via_apicbase = true;
          }
          else s)
      else s

  unfoldable pub apic_force_enable : (addr : ℕ) → Detection → Bool × Detection
  apic_force_enable addr s = if f.disable_apic then (false, s) else apic_verify (reenabled addr s)

  abbrev pub is_known : Vendor → Bool → Bool
  is_known amd has_apic = (f.x86 == 6 && ltb 1 f.x86_model) || leb 15 f.x86
  is_known hygon has_apic = true
  is_known intel has_apic = f.x86 == 6 || f.x86 == 15 || (f.x86 == 5 && has_apic)
  is_known other has_apic = false

  -- The end of the function, with `apic_pm_activate`.
  abbrev pub activate : Bool × Detection → Bool × Detection
  activate (ok, s) = if ok then (true, record s { active = true }) else (false, s)

  unfoldable pub detect_init_apic_32 : Detection → Bool × Detection
  detect_init_apic_32 s =
      if f.disable_apic
      then (false, s)
      else if not (is_known f.vendor s.has_apic)
      then (false, s)
      else if not s.has_apic
      then (if not f.force_enable_local_apic
          then (false, s)
          else activate (apic_force_enable f.default_phys_base s))
      else activate (apic_verify s)
