-- ===== src/Apic/Initcalls.antt =====
-- What the kernel calls once, or on every CPU, in linux/arch/x86/kernel/apic/apic.c:
-- `init_lapic_sysfs`, `up_late_init`, `setup_profiling_timer`, `lapic_update_tsc_freq`, the initcall
-- `validate_x2apic` of a kernel without x2APIC, and `sysvec_spurious_apic_interrupt`.
pub mod Frequency
use resume_from_edk2_tooling.Base.{ℕ, Bool, not, Option, List, [], ◌∷◌, ◌++◌, if◌then◌else◌}
use resume_from_edk2_tooling.Apic.Device.{Device, ApicDef}
use resume_from_edk2_tooling.Apic.Power.{Boot, PmState, Call, lapic_suspend, lapic_resume}
use resume_from_edk2_tooling.Apic.Mode.{IntrMode, pic}
use resume_from_edk2_tooling.Apic.Cpus.{Errno, einval}
use resume_from_edk2_tooling.Apic.Deadline.{ThisCpu, Levt, lapic_update_tsc_freq_on}
use resume_from_edk2_tooling.Apic.X2apic.{Machine, Result, ok, panic, apic_is_x2apic_enabled}
use resume_from_edk2_tooling.Apic.Vectors.{spurious_interrupt}

module _ (d : Device) (def : ApicDef) where
  -- `struct syscore_ops`, as far as it is set here.
  pub record SyscoreOps : Type 0 where
    pub suspend : Boot → PmState → d.State → PmState × d.State × List Call
    pub resume : Boot → PmState → (base : ℕ) → d.State → ℕ × d.State × List Call

  abbrev pub lapic_syscore_ops : SyscoreOps
  lapic_syscore_ops = record { suspend = lapic_suspend d def; resume = lapic_resume d def }

  -- `registered` are the operations that are registered already.
  unfoldable pub init_lapic_sysfs : (has_apic : Bool) → List SyscoreOps → List SyscoreOps
  init_lapic_sysfs has_apic registered =
      if has_apic then registered ++ (lapic_syscore_ops ∷ []) else registered

  abbrev pub sysvec_spurious_apic_interrupt : (ack_apic_irq : d.State → d.State) → d.State → d.State
  sysvec_spurious_apic_interrupt ack_apic_irq s =
      spurious_interrupt d def ack_apic_irq def.spurious_apic_vector s

-- `setup_percpu_clockev` is the one of `x86_init.timers`.
unfoldable pub up_late_init {ℓ} : {S : Type ℓ} → (setup_percpu_clockev : S → S) → IntrMode → S → S
up_late_init setup_percpu_clockev pic s = s
up_late_init setup_percpu_clockev _ s = setup_percpu_clockev s

unfoldable pub setup_profiling_timer : (multiplier : ℕ) → Errno
setup_profiling_timer multiplier = einval

-- On each CPU, with its device: the device and the frequency that it is given, if any.
unfoldable pub lapic_update_tsc_freq : List (ThisCpu × Levt) → List (Option (Levt × ℕ))
lapic_update_tsc_freq [] = []
lapic_update_tsc_freq ((c, levt) ∷ rest) =
    lapic_update_tsc_freq_on c levt ∷ lapic_update_tsc_freq rest

-- `readable` says that the MSR can be read.
unfoldable pub validate_x2apic : (readable : Bool) → Machine → Result
validate_x2apic readable s = if not (apic_is_x2apic_enabled readable s) then ok s else panic
