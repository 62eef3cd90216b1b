-- ===== src/Apic/Bringup.antt =====
-- How linux/arch/x86/kernel/apic/apic.c brings a processor's APIC up: `end_local_APIC_setup`,
-- `apic_pm_activate`, `apic_ap_setup`, `apic_bsp_up_setup`, `apic_bsp_setup`, and
-- `apic_intr_mode_init` with the calls that Mode lists carried out. 64-bit kernel, CONFIG_PM.
pub mod Active
use resume_from_edk2_tooling.Base.{ℕ, Bool, true, Option, none, some, List, [], ◌∷◌, if◌then◌else◌}
use resume_from_edk2_tooling.Apic.Device.{Device, ApicDef, id}
use resume_from_edk2_tooling.Apic.Mode.{WireDef, Call, default_setup_apic_routing, apic_bsp_setup}
use resume_from_edk2_tooling.Apic.Power.{PmState}
use resume_from_edk2_tooling.Apic.Setup.{
  Hooks, Options, Outcome, ioapic_disabled, bug, ready, lapic_setup_esr, setup_local_apic,
}

-- What other files and the driver do on the way.
pub record Board (d : Device) : Type 0 where
  pub set_apic_id : ℕ → ℕ
  pub physid_set_mask_of_physid : (physid : ℕ) → (ℕ → Bool) → ℕ → Bool
  pub default_setup_apic_routing : d.State → d.State
  pub enable_io_apic : d.State → d.State
  pub irq_remap_enable_fault_handling : d.State → d.State
  pub setup_io_apic : d.State → d.State

-- The APIC, `apic_pm_state`, `phys_cpu_present_map`, and whether the I/O APIC has been given up.
pub record Up (State : Type 0) : Type 0 where
  pub apic : State
  pub pm : PmState
  pub phys_cpu_present_map : ℕ → Bool
  pub ioapic_disabled : Bool

module _ (d : Device) (def : ApicDef) (wire : WireDef) (hooks : Hooks d) (board : Board d) where
  abbrev pub apic_pm_activate : Up d.State → Up d.State
  apic_pm_activate u = record u { pm = record (u.pm) { active = true } }

  unfoldable pub end_local_apic_setup : Up d.State → Up d.State
  end_local_apic_setup u =
      apic_pm_activate (record u { apic = lapic_setup_esr d def wire hooks u.apic })

  -- `none` is a BUG, which does not return; after the call that gives the I/O APIC up,
  -- `setup_local_APIC` returns as it does at its end.
  abbrev pub after_setup : Outcome d.State → Up d.State → Option (Up d.State)
  after_setup (ioapic_disabled s) u = some (record u { apic = s; ioapic_disabled = true })
  after_setup bug u = none
  after_setup (ready s) u = some (record u { apic = s })

  abbrev pub then_do : Option (Up d.State) → (Up d.State → Up d.State) → Option (Up d.State)
  then_do none f = none
  then_do (some u) f = some (f u)

  unfoldable pub apic_ap_setup : Options → Up d.State → Option (Up d.State)
  apic_ap_setup o u =
      then_do (after_setup (setup_local_apic d def wire hooks o u.apic) u) end_local_apic_setup

  unfoldable pub apic_bsp_up_setup : (boot_cpu_physical_apicid : ℕ) → Up d.State → Up d.State
  apic_bsp_up_setup boot_cpu_physical_apicid u = record u {
    apic = d.write id (board.set_apic_id boot_cpu_physical_apicid) u.apic;
    phys_cpu_present_map =
        board.physid_set_mask_of_physid boot_cpu_physical_apicid u.phys_cpu_present_map;
  }

  -- The rest of `apic_bsp_setup`, behind `setup_local_APIC`.
  abbrev pub finish_bsp : Up d.State → Up d.State
  finish_bsp u =
      let ended = end_local_apic_setup (record u { apic = board.enable_io_apic u.apic }) in
      record ended { apic = board.setup_io_apic (board.irq_remap_enable_fault_handling ended.apic) }

  -- `connect_bsp_APIC` does nothing on a 64-bit kernel.
  unfoldable pub bsp_setup :
      Options → (boot_cpu_physical_apicid : ℕ) → (upmode : Bool) → Up d.State → Option (Up d.State)
  bsp_setup o boot_cpu_physical_apicid upmode u =
      let v = if upmode then apic_bsp_up_setup boot_cpu_physical_apicid u else u in
      then_do (after_setup (setup_local_apic d def wire hooks o v.apic) v) finish_bsp

  -- The calls of `apic_intr_mode_init`, one after another.
  unfoldable pub make_calls :
      Options → (boot_cpu_physical_apicid : ℕ) → List Call → Up d.State → Option (Up d.State)
  make_calls o boot_cpu_physical_apicid [] u = some u
  make_calls o boot_cpu_physical_apicid (default_setup_apic_routing ∷ rest) u =
      make_calls o boot_cpu_physical_apicid rest
        (record u { apic = board.default_setup_apic_routing u.apic })
  make_calls o boot_cpu_physical_apicid (apic_bsp_setup upmode ∷ rest) u =
      elim (bsp_setup o boot_cpu_physical_apicid upmode u) [
        | none ↦ none
        | some v ↦ make_calls o boot_cpu_physical_apicid rest v
      ]
