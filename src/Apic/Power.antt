-- ===== src/Apic/Power.antt =====
-- Power management in linux/arch/x86/kernel/apic/apic.c: `lapic_suspend` and `lapic_resume`.
-- Calls of the I/O APIC, the legacy controller and the remapping unit are listed in order.
pub mod Restore
use resume_from_edk2_tooling.Base.{
  ℕ, ◌+◌, ◌*◌, ◌/◌, ◌%◌, ◌^◌, Bool, true, false, not, bit_and, bit_or, ◌==◌, leb, ltb,
  if◌then◌else◌, List, [], ◌∷◌, ◌++◌,
}
use resume_from_edk2_tooling.Apic.Device.{
  Reg, Device, ApicDef, not32, run, only, lapic_get_maxlvt, lapic_is_integrated, id, taskpri, ldr,
  dfr, lvtt, lvtthmr, lvtpc, lvt0, lvt1, lvterr, lvtcmci, esr, spiv, tmict, tdcr,
}
use resume_from_edk2_tooling.Apic.Lvt.{disable_local_apic}

pub data Call : Type 0 where
  mask_ioapic_entries : Call
  mask_legacy_pic : Call
  irq_remapping_disable : Call
  irq_remapping_reenable : Bool → Call

-- `apic_pm_state`
pub record PmState : Type 0 where
  pub active : Bool
  pub apic_id : ℕ
  pub apic_taskpri : ℕ
  pub apic_ldr : ℕ
  pub apic_dfr : ℕ
  pub apic_spiv : ℕ
  pub apic_lvtt : ℕ
  pub apic_lvtpc : ℕ
  pub apic_lvt0 : ℕ
  pub apic_lvt1 : ℕ
  pub apic_lvterr : ℕ
  pub apic_tmict : ℕ
  pub apic_tdcr : ℕ
  pub apic_thmr : ℕ
  pub apic_cmci : ℕ

-- What the boot has found out: the mode, whether the APIC is mapped, the CPU's family, and the
-- address of the APIC.
pub record Boot : Type 0 where
  pub x2apic_mode : Bool
  pub mapped : Bool
  pub x86 : ℕ
  pub mp_lapic_addr : ℕ

module _ (d : Device) (def : ApicDef) where
  -- The copy that `lapic_suspend` takes; a field of a missing entry keeps its old value.
  unfoldable pub save : PmState → d.State → PmState
  save pm s =
      let maxlvt = lapic_get_maxlvt d def s in
      record {
        active = pm.active;
        apic_id = d.read id s;
        apic_taskpri = d.read taskpri s;
        apic_ldr = d.read ldr s;
        apic_dfr = d.read dfr s;
        apic_spiv = d.read spiv s;
        apic_lvtt = d.read lvtt s;
        apic_lvtpc = if leb 4 maxlvt then d.read lvtpc s else pm.apic_lvtpc;
        apic_lvt0 = d.read lvt0 s;
        apic_lvt1 = d.read lvt1 s;
        apic_lvterr = d.read lvterr s;
        apic_tmict = d.read tmict s;
        apic_tdcr = d.read tdcr s;
        apic_thmr = if leb 5 maxlvt then d.read lvtthmr s else pm.apic_thmr;
        apic_cmci = if leb 6 maxlvt then d.read lvtcmci s else pm.apic_cmci;
      }

  unfoldable pub lapic_suspend : Boot → PmState → d.State → PmState × d.State × List Call
  lapic_suspend boot pm s = if not pm.active then (pm, s, []) else (
    save pm s,
    disable_local_apic d def boot.mapped s,
    mask_ioapic_entries ∷ irq_remapping_disable ∷ [],
  )

  -- The value of IA32_APICBASE after `lapic_resume` has set the APIC up.
  unfoldable pub resume_base : Boot → ℕ → ℕ
  resume_base boot base =
      if boot.x2apic_mode
      then (if bit_and base def.x2apic_enable == 0 then bit_or base def.x2apic_enable else base)
      else if leb 6 boot.x86
      then base / 2 ^ 32 * 2 ^ 32
        + bit_or (bit_and (base % 2 ^ 32) (not32 def.apicbase_base))
            (bit_or def.apicbase_enable boot.mp_lapic_addr % 2 ^ 32)
      else base

  abbrev pub restore : ℕ → PmState → List (d.State → d.State)
  restore maxlvt pm =
      d.write lvterr (bit_or def.error_apic_vector def.lvt_masked)
      ∷ d.write id pm.apic_id
      ∷ d.write dfr pm.apic_dfr
      ∷ d.write ldr pm.apic_ldr
      ∷ d.write taskpri pm.apic_taskpri
      ∷ d.write spiv pm.apic_spiv
      ∷ d.write lvt0 pm.apic_lvt0
      ∷ d.write lvt1 pm.apic_lvt1
      ∷ only (leb 5 maxlvt) (d.write lvtthmr pm.apic_thmr)
      ∷ only (leb 6 maxlvt) (d.write lvtcmci pm.apic_cmci)
      ∷ only (leb 4 maxlvt) (d.write lvtpc pm.apic_lvtpc)
      ∷ d.write lvtt pm.apic_lvtt
      ∷ d.write tdcr pm.apic_tdcr
      ∷ d.write tmict pm.apic_tmict
      ∷ d.write esr 0
      ∷ d.write lvterr pm.apic_lvterr
      ∷ d.write esr 0
      ∷ []

  -- `base` is IA32_APICBASE. Reading a register changes nothing, so the two reads of ESR that are
  -- thrown away leave no trace.
  unfoldable pub lapic_resume : Boot → PmState → (base : ℕ) → d.State → ℕ × d.State × List Call
  lapic_resume boot pm base s = if not pm.active then (base, s, []) else (
    resume_base boot base,
    run (restore (lapic_get_maxlvt d def s) pm) s,
    mask_ioapic_entries ∷ mask_legacy_pic ∷ irq_remapping_reenable boot.x2apic_mode ∷ [],
  )
