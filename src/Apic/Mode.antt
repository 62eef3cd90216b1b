-- ===== src/Apic/Mode.antt =====
-- How linux/arch/x86/kernel/apic/apic.c picks the interrupt delivery mode of the boot CPU:
-- `__apic_intr_mode_select`, `apic_intr_mode_select`, `apic_intr_mode_init`, `init_bsp_APIC` and
-- `apic_needs_pit`, for a 64-bit SMP kernel. The calls of `apic_intr_mode_init` are listed.
pub mod Select
use resume_from_edk2_tooling.Base.{
  ℕ, ◌==◌, Bool, true, false, not, ◌&&◌, ◌||◌, bit_and, bit_or, if◌then◌else◌, List, [], ◌∷◌,
}
use resume_from_edk2_tooling.Apic.Device.{
  Device, ApicDef, not32, spiv, lvt0, lvt1, lapic_is_integrated,
}
use resume_from_edk2_tooling.Apic.Lvt.{clear_local_apic}

pub data IntrMode : Type 0 where
  pic virtual_wire virtual_wire_no_config symmetric_io symmetric_io_no_routing : IntrMode

-- The global variables that the choice reads, and those that it writes.
pub record Setup : Type 0 where
  pub disable_apic : Bool
  pub has_apic : Bool
  pub smp_found_config : Bool
  pub acpi_lapic : Bool
  pub setup_max_cpus : ℕ
  pub read_apic_id : ℕ
  pub boot_cpu_physical_apicid : ℕ
  pub ioapic_disabled : Bool
  pub apic_intr_mode : IntrMode

pub data Choice : Type 0 where
  panic : Choice
  chosen : IntrMode → Setup → Choice

unfoldable pub choose_intr_mode : Setup → Choice
choose_intr_mode s =
    if s.disable_apic
    then chosen pic s
    else if not s.has_apic
    then chosen pic (record s { disable_apic = true })
    else if not s.smp_found_config
    then (if not s.acpi_lapic
        then chosen virtual_wire_no_config (record s { ioapic_disabled = true })
        else chosen virtual_wire (record s { ioapic_disabled = true }))
    else if s.setup_max_cpus == 0
    then chosen symmetric_io_no_routing s
    else (if not (s.read_apic_id == s.boot_cpu_physical_apicid)
        then panic
        else chosen symmetric_io s)

abbrev pub keep : Choice → Choice
keep panic = panic
keep (chosen m s) = chosen m (record s { apic_intr_mode = m })

unfoldable pub apic_intr_mode_select : Setup → Choice
apic_intr_mode_select s = keep (choose_intr_mode s)

pub data Call : Type 0 where
  default_setup_apic_routing : Call
  apic_bsp_setup : Bool → Call

-- `up_late_init` is IS_ENABLED(CONFIG_UP_LATE_INIT).
unfoldable pub apic_intr_mode_init : (up_late_init : Bool) → IntrMode → List Call
apic_intr_mode_init upmode pic = []
apic_intr_mode_init upmode virtual_wire = default_setup_apic_routing ∷ apic_bsp_setup upmode ∷ []
apic_intr_mode_init upmode virtual_wire_no_config =
    default_setup_apic_routing ∷ apic_bsp_setup true ∷ []
apic_intr_mode_init upmode symmetric_io = default_setup_apic_routing ∷ apic_bsp_setup upmode ∷ []
apic_intr_mode_init upmode symmetric_io_no_routing = apic_bsp_setup upmode ∷ []

-- The parts of the state that only `apic_needs_pit` reads.
pub record Clocks : Type 0 where
  pub tsc_khz : ℕ
  pub cpu_khz : ℕ
  pub has_arat : Bool
  pub has_tsc_deadline : Bool
  pub disable_apic_timer : Bool
  pub lapic_timer_period : ℕ

abbrev pub no_apic_timer : IntrMode → Bool
no_apic_timer pic = true
no_apic_timer virtual_wire_no_config = true
no_apic_timer _ = false

unfoldable pub apic_needs_pit : Clocks → Setup → Bool
apic_needs_pit c s =
    if c.tsc_khz == 0 || c.cpu_khz == 0
    then true
    else if not s.has_apic || s.disable_apic
    then true
    else if no_apic_timer s.apic_intr_mode
    then true
    else if not c.has_arat
    then true
    else if c.has_tsc_deadline
    then false
    else (if c.disable_apic_timer then true else c.lapic_timer_period == 0)

-- The values that `init_bsp_APIC` writes: APIC_SPIV_FOCUS_DISABLED, APIC_DM_EXTINT, APIC_DM_NMI,
-- APIC_LVT_LEVEL_TRIGGER.
pub record WireDef : Type 0 where
  pub spiv_focus_disabled : ℕ
  pub dm_extint : ℕ
  pub dm_nmi : ℕ
  pub lvt_level_trigger : ℕ

pub data Extnmi : Type 0 where
  extnmi_bsp extnmi_all extnmi_none : Extnmi

abbrev pub is_none : Extnmi → Bool
is_none extnmi_none = true
is_none _ = false

module _ (d : Device) (def : ApicDef) (wire : WireDef) where
  -- The values written to APIC_SPIV and APIC_LVT1.
  abbrev pub bsp_spiv : ℕ → ℕ
  bsp_spiv value =
      bit_or
        (bit_or (bit_or (bit_and value (not32 def.vector_mask)) def.spiv_apic_enabled)
          wire.spiv_focus_disabled)
        def.spurious_apic_vector

  abbrev pub bsp_lvt1 : (integrated : Bool) → Extnmi → ℕ
  bsp_lvt1 integrated apic_extnmi =
      let level = if integrated then wire.dm_nmi else bit_or wire.dm_nmi wire.lvt_level_trigger in
      if is_none apic_extnmi then bit_or level def.lvt_masked else level

  unfoldable pub init_bsp_apic :
      (smp_found_config has_apic mapped : Bool) → Extnmi → d.State → d.State
  init_bsp_apic smp_found_config has_apic mapped apic_extnmi s =
      let cleared = clear_local_apic d def mapped s in
      let enabled = d.write spiv (bsp_spiv (d.read spiv cleared)) cleared in
      let wired = d.write lvt0 wire.dm_extint enabled in
      if smp_found_config || not has_apic
      then s
      else d.write lvt1 (bsp_lvt1 (lapic_is_integrated d def wired) apic_extnmi) wired
