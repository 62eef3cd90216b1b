-- ===== src/Apic/Lvt.antt =====
-- Shutting the local APIC down: `clear_local_APIC`, `apic_soft_disable`, `disable_local_APIC` and
-- `lapic_shutdown` of linux/arch/x86/kernel/apic/apic.c, with the thermal and CMCI entries.
pub mod Masked
pub mod Portable
pub mod Silent
use resume_from_edk2_tooling.Base.{
  ℕ, Bool, not, ◌&&◌, bit_and, bit_or, ◌==◌, leb, ltb, if◌then◌else◌, List, [], ◌∷◌,
}
use resume_from_edk2_tooling.Apic.Device.{
  Device, ApicDef, not32, run, only, mask, lapic_get_maxlvt, lapic_is_integrated, lvtt, lvtthmr,
  lvtpc, lvt0, lvt1, lvterr, lvtcmci, esr, spiv,
}

module _ (d : Device) (def : ApicDef) where
  abbrev pub clear_masks : ℕ → List (d.State → d.State)
  clear_masks maxlvt =
      only (leb 3 maxlvt) (d.write lvterr (bit_or def.error_apic_vector def.lvt_masked))
      ∷ mask d def lvtt
      ∷ mask d def lvt0
      ∷ mask d def lvt1
      ∷ only (leb 4 maxlvt) (mask d def lvtpc)
      ∷ only (leb 5 maxlvt) (mask d def lvtthmr)
      ∷ only (leb 6 maxlvt)
          (λ s. only (bit_and (d.read lvtcmci s) def.lvt_masked == 0) (mask d def lvtcmci) s)
      ∷ []

  abbrev pub clear_state : ℕ → List (d.State → d.State)
  clear_state maxlvt =
      d.write lvtt def.lvt_masked
      ∷ d.write lvt0 def.lvt_masked
      ∷ d.write lvt1 def.lvt_masked
      ∷ only (leb 3 maxlvt) (d.write lvterr def.lvt_masked)
      ∷ only (leb 4 maxlvt) (d.write lvtpc def.lvt_masked)
      ∷ (λ s. only (lapic_is_integrated d def s && ltb 3 maxlvt) (d.write esr 0) s)
      ∷ []

  -- `mapped` is `x2apic_mode || apic_phys`.
  unfoldable pub clear_local_apic : Bool → d.State → d.State
  clear_local_apic mapped s =
      let maxlvt = lapic_get_maxlvt d def s in
      if not mapped then s else run (clear_state maxlvt) (run (clear_masks maxlvt) s)

  unfoldable pub apic_soft_disable : Bool → d.State → d.State
  apic_soft_disable mapped s =
      let t = clear_local_apic mapped s in
      d.write spiv (bit_and (d.read spiv t) (not32 def.spiv_apic_enabled)) t

  unfoldable pub disable_local_apic : Bool → d.State → d.State
  disable_local_apic mapped s = if not mapped then s else apic_soft_disable mapped s

  -- `boot_cpu_has(X86_FEATURE_APIC)` and `apic_from_smp_config()` are given.
  unfoldable pub lapic_shutdown : (has_apic from_smp_config mapped : Bool) → d.State → d.State
  lapic_shutdown has_apic from_smp_config mapped s =
      if not has_apic && not from_smp_config then s else disable_local_apic mapped s
