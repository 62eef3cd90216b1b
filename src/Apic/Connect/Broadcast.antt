-- ===== src/Apic/Connect/Broadcast.antt =====
-- The APIC ids that are read, against the number of physical broadcast ids.
use resume_from_edk2_tooling.Base.{ℕ, ◌/◌, ◌^◌, ◌≤◌, ◌≡◌, Bool, true, arith, leb}
use resume_from_edk2_tooling.Apic.Device.{Device, ApicDef, lapic_get_version}
use resume_from_edk2_tooling.Apic.Detect.{Vendor}
use resume_from_edk2_tooling.Apic.Connect.{EntryDef, modern_apic}
use resume_from_edk2_tooling.Apic.Connect.PicMode.{get_physical_broadcast}
use resume_from_edk2_tooling.Apic.Drivers.{default_get_apic_id}
use resume_from_edk2_tooling.Base.Bits.{bit_and_low}

modern_apic-version :
    (d : Device) (def : ApicDef) (entry : EntryDef) (vendor : Vendor) (x86 : ℕ) (s : d.State)
    → leb 0x14 (lapic_get_version d def s) ≡ true
    → modern_apic d def entry vendor x86 s ≡ true
unfolding modern_apic
modern_apic-version d def entry vendor x86 s h = ground (arith, h)

-- The id that `default_get_apic_id` takes out of a register is never above the broadcast id of
-- `get_physical_broadcast`, whatever the register holds: 8 bits on a modern APIC, else 4. The version
-- of an xAPIC is 0x14 or more, and only processors that `modern_apic` knows have extended ids.
pub default_get_apic_id-bounded :
    (d : Device) (def : ApicDef) (entry : EntryDef) (vendor : Vendor) (x86 : ℕ)
    (is_xapic : ℕ → Bool) (has_extd_apicid : Bool) (x : ℕ) (s : d.State)
    → ((version : ℕ) → is_xapic version ≡ leb 0x14 version)
    → (has_extd_apicid ≡ true → modern_apic d def entry vendor x86 s ≡ true)
    → default_get_apic_id d def is_xapic has_extd_apicid x s
      ≤ get_physical_broadcast d def entry vendor x86 s
unfolding default_get_apic_id get_physical_broadcast
default_get_apic_id-bounded d def entry vendor x86 is_xapic has_extd x s xapic extd = ground (
  arith,
  xapic (lapic_get_version d def s),
  modern_apic-version d def entry vendor x86 s,
  bit_and_low 8 (x / 2 ^ 24),
  bit_and_low 4 (x / 2 ^ 24),
)
