-- ===== src/Apic/Connect/Wires.antt =====
-- What the disconnected APIC of the boot processor holds.
use resume_from_edk2_tooling.Base.{◌≡◌, refl, Bool, true, false, if◌then◌else◌}
use resume_from_edk2_tooling.Apic.Device.{Device, ApicDef, Holds, spiv, lvt0, lvt1}
use resume_from_edk2_tooling.Apic.Connect.{EntryDef, rewired, wire_spiv, disconnect_bsp_apic}

module _ (d : Device) (def : ApicDef) (entry : EntryDef) where
  -- Each register is computed from what it held before: SPIV is enabled with vector 15; LVT1 is
  -- rewired to NMI; LVT0 is masked in virtual wire mode through the I/O APIC and rewired to
  -- ExtINT otherwise. The three registers hold what is written to them.
  pub disconnect_bsp_apic_lem :
      (virt_wire_setup : Bool) (s : d.State)
      → Holds d spiv
      → Holds d lvt0
      → Holds d lvt1
      → let t = disconnect_bsp_apic d def entry virt_wire_setup s in
        (d.read spiv t ≡ wire_spiv d def entry (d.read spiv s))
        × (d.read lvt0 t ≡ (
            if virt_wire_setup
            then def.lvt_masked
            else rewired d def entry entry.mode_extint (d.read lvt0 s)))
        × (d.read lvt1 t ≡ rewired d def entry entry.mode_nmi (d.read lvt1 s))
  unfolding disconnect_bsp_apic
  disconnect_bsp_apic_lem true s hs h0 h1 =
      (simp (hs, h0, h1) refl, simp (hs, h0, h1) refl, simp (hs, h0, h1) refl)
  disconnect_bsp_apic_lem false s hs h0 h1 =
      (simp (hs, h0, h1) refl, simp (hs, h0, h1) refl, simp (hs, h0, h1) refl)
