-- ===== src/Apic/Connect.antt =====
-- `disconnect_bsp_APIC`, `modern_apic` and `sync_Arb_IDs` of linux/arch/x86/kernel/apic/apic.c,
-- for a 64-bit kernel.
pub mod Broadcast
pub mod Imcr
pub mod PicMode
pub mod Wires
use resume_from_edk2_tooling.Base.{
  ℕ, bit_and, bit_or, Bool, true, false, not, ◌&&◌, ◌||◌, leb, if◌then◌else◌,
}
use resume_from_edk2_tooling.Apic.Device.{
  Device, ApicDef, not32, spiv, lvt0, lvt1, icr, lapic_get_version,
}
use resume_from_edk2_tooling.Apic.Detect.{Vendor, amd, hygon}

-- The fields of an entry: APIC_MODE_MASK, APIC_SEND_PENDING, APIC_INPUT_POLARITY,
-- APIC_LVT_REMOTE_IRR, APIC_LVT_LEVEL_TRIGGER, SET_APIC_DELIVERY_MODE, APIC_MODE_EXTINT,
-- APIC_MODE_NMI, and what `sync_Arb_IDs` writes.
pub record EntryDef : Type 0 where
  pub mode_mask : ℕ
  pub send_pending : ℕ
  pub input_polarity : ℕ
  pub remote_irr : ℕ
  pub level_trigger : ℕ
  pub set_delivery_mode : (value mode : ℕ) → ℕ
  pub mode_extint : ℕ
  pub mode_nmi : ℕ
  pub sync_command : ℕ

module _ (d : Device) (def : ApicDef) (entry : EntryDef) where
  abbrev pub wire_mask : ℕ
  wire_mask =
      bit_or
        (bit_or
          (bit_or (bit_or (bit_or entry.mode_mask entry.send_pending) entry.input_polarity)
            entry.remote_irr)
          entry.level_trigger)
        def.lvt_masked

  -- Edge triggered, active high, enabled, with a delivery mode.
  abbrev pub rewired : (mode old : ℕ) → ℕ
  rewired mode old =
      entry.set_delivery_mode
        (bit_or (bit_and old (not32 wire_mask)) (bit_or entry.remote_irr entry.send_pending)) mode

  abbrev pub wire_spiv : ℕ → ℕ
  wire_spiv old = bit_or (bit_or (bit_and old (not32 def.vector_mask)) def.spiv_apic_enabled) 0xf

  unfoldable pub disconnect_bsp_apic : (virt_wire_setup : Bool) → d.State → d.State
  disconnect_bsp_apic virt_wire_setup s =
      let enabled = d.write spiv (wire_spiv (d.read spiv s)) s in
      let wired =
        d.write lvt0
          (if not virt_wire_setup
            then rewired entry.mode_extint (d.read lvt0 enabled)
            else def.lvt_masked)
          enabled in
      d.write lvt1 (rewired entry.mode_nmi (d.read lvt1 wired)) wired

  abbrev pub is_amd : Vendor → Bool
  is_amd amd = true
  is_amd _ = false

  abbrev pub is_hygon : Vendor → Bool
  is_hygon hygon = true
  is_hygon _ = false

  unfoldable pub modern_apic : Vendor → (x86 : ℕ) → d.State → Bool
  modern_apic vendor x86 s =
      if is_amd vendor && leb 0xf x86
      then true
      else (if is_hygon vendor then true else leb 0x14 (lapic_get_version d def s))

  -- `apic_wait_icr_idle` is the driver's.
  unfoldable pub sync_arb_ids :
      (apic_wait_icr_idle : d.State → d.State) → Vendor → (x86 : ℕ) → d.State → d.State
  sync_arb_ids apic_wait_icr_idle vendor x86 s =
      if modern_apic vendor x86 s || is_amd vendor
      then s
      else d.write icr entry.sync_command (apic_wait_icr_idle s)
