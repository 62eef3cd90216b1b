-- ===== src/Apic/Setup.antt =====
-- `lapic_setup_esr` and `setup_local_APIC` of linux/arch/x86/kernel/apic/apic.c, for a 64-bit
-- kernel with CONFIG_X86_MCE_INTEL. The calls into the APIC driver and other files are arguments.
pub mod Entries
use resume_from_edk2_tooling.Base.{
  ℕ, ◌==◌, ltb, Bool, true, false, not, ◌&&◌, ◌||◌, bit_and, bit_or, if◌then◌else◌,
}
use resume_from_edk2_tooling.Apic.Device.{
  Device, ApicDef, not32, esr, lvterr, spiv, taskpri, lvt0, lvt1, only, lapic_get_maxlvt,
  lapic_is_integrated,
}
use resume_from_edk2_tooling.Apic.Mode.{
  WireDef, Extnmi, extnmi_bsp, extnmi_all, extnmi_none, is_none,
}
use resume_from_edk2_tooling.Apic.Pending.{apic_pending_intr_clear}

-- What the driver and other files do; `tpri_mask` is APIC_TPRI_MASK, and `event_handler` what the
-- `evt->event_handler` of the timer does to the registers when it is called at a value of jiffies.
pub record Hooks (d : Device) : Type 0 where
  pub apic_id_registered : d.State → Bool
  pub init_apic_ldr : d.State → d.State
  pub ack_apic_irq : d.State → d.State
  pub event_handler : (jiffies : ℕ) → d.State → d.State
  pub perf_events_lapic_init : d.State → d.State
  pub cmci_recheck : d.State → d.State
  pub disable_esr : Bool
  pub tpri_mask : ℕ

-- What `setup_local_APIC` reads of the kernel.
pub record Options : Type 0 where
  pub disable_apic : Bool
  pub cpu : ℕ
  pub pic_mode : Bool
  pub skip_ioapic_setup : Bool
  pub apic_extnmi : Extnmi

pub data Outcome (S : Type 0) : Type 0 where
  ioapic_disabled : S → Outcome S
  bug : Outcome S
  ready : S → Outcome S

abbrev pub is_all : Extnmi → Bool
is_all extnmi_all = true
is_all _ = false

module _ (d : Device) (def : ApicDef) (wire : WireDef) (hooks : Hooks d) where
  unfoldable pub lapic_setup_esr : d.State → d.State
  lapic_setup_esr s =
      let maxlvt = lapic_get_maxlvt d def s in
      let cleared = only (ltb 3 maxlvt) (d.write esr 0) s in
      let enabled = d.write lvterr def.error_apic_vector cleared in
      if not (lapic_is_integrated d def s)
      then s
      else (if hooks.disable_esr then s else only (ltb 3 maxlvt) (d.write esr 0) enabled)

  -- The values written to APIC_LVT0 and APIC_LVT1; `cpu` and `lvt0` as they are read.
  abbrev pub lint0 : Options → ℕ → ℕ
  lint0 o old =
      if o.cpu == 0 && (o.pic_mode || bit_and old def.lvt_masked == 0 || o.skip_ioapic_setup)
      then wire.dm_extint
      else bit_or wire.dm_extint def.lvt_masked

  abbrev pub lint1 : Options → (integrated : Bool) → ℕ
  lint1 o integrated =
      let value =
        if (o.cpu == 0 && not (is_none o.apic_extnmi)) || is_all o.apic_extnmi
        then wire.dm_nmi
        else bit_or wire.dm_nmi def.lvt_masked in
      if not integrated then bit_or value wire.lvt_level_trigger else value

  -- Up to the line in which pending interrupts are cleared, from where the APIC is registered.
  abbrev pub before_clear : d.State → d.State
  before_clear s =
      let t = hooks.init_apic_ldr s in
      d.write taskpri (bit_or (bit_and (d.read taskpri t) (not32 hooks.tpri_mask)) 0x10) t

  abbrev pub enable : d.State → d.State
  enable s =
      d.write spiv
        (bit_or (bit_or (bit_and (d.read spiv s) (not32 def.vector_mask)) def.spiv_apic_enabled)
          def.spurious_apic_vector)
        s

  abbrev pub set_lints : Options → d.State → d.State
  set_lints o s =
      let t = d.write lvt0 (lint0 o (d.read lvt0 s)) s in
      d.write lvt1 (lint1 o (lapic_is_integrated d def t)) t

  unfoldable pub setup_local_apic : Options → d.State → Outcome d.State
  setup_local_apic o s =
      let off = d.write spiv (bit_and (d.read spiv s) (not32 def.spiv_apic_enabled)) s in
      let cleared = apic_pending_intr_clear d hooks.ack_apic_irq (before_clear off) in
      let wired = set_lints o (hooks.perf_events_lapic_init (enable cleared)) in
      if o.disable_apic
      then ioapic_disabled s
      else if not (hooks.apic_id_registered off)
      then bug
      else ready (only (o.cpu == 0) hooks.cmci_recheck wired)
