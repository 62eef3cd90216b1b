-- ===== src/Apic/Connect/PicMode.antt =====
-- The boot processor of a 32-bit kernel on a board with the PIC mode of the MP specification:
-- `imcr_pic_to_apic`, `imcr_apic_to_pic`, `connect_bsp_APIC`, `disconnect_bsp_APIC` and
-- `get_physical_broadcast` of linux/arch/x86/kernel/apic/apic.c. `outb` is the processor's.
use resume_from_edk2_tooling.Base.{ℕ, Bool, if◌then◌else◌}
use resume_from_edk2_tooling.Apic.Device.{Device, ApicDef}
use resume_from_edk2_tooling.Apic.Detect.{Vendor}
use resume_from_edk2_tooling.Apic.Lvt.{clear_local_apic}
use resume_from_edk2_tooling.Apic.Connect.{EntryDef, disconnect_bsp_apic, modern_apic}

-- `P` is what lies behind the I/O ports.
module _ {P : Type 0} (outb : (value port : ℕ) → P → P) where
  abbrev pub imcr_pic_to_apic : P → P
  imcr_pic_to_apic p = outb 0x01 0x23 (outb 0x70 0x22 p)

  abbrev pub imcr_apic_to_pic : P → P
  imcr_apic_to_pic p = outb 0x00 0x23 (outb 0x70 0x22 p)

  module _ (d : Device) (def : ApicDef) (entry : EntryDef) where
    -- `mapped` is as in `clear_local_APIC`.
    unfoldable pub connect_bsp_apic_32 : (pic_mode mapped : Bool) → d.State × P → d.State × P
    connect_bsp_apic_32 pic_mode mapped (s, p) =
        if pic_mode then (clear_local_apic d def mapped s, imcr_pic_to_apic p) else (s, p)

    unfoldable pub disconnect_bsp_apic_32 :
        (pic_mode virt_wire_setup : Bool) → d.State × P → d.State × P
    disconnect_bsp_apic_32 pic_mode virt_wire_setup (s, p) =
        if pic_mode
        then (s, imcr_apic_to_pic p)
        else (disconnect_bsp_apic d def entry virt_wire_setup s, p)

unfoldable pub get_physical_broadcast :
    (d : Device) → ApicDef → EntryDef → Vendor → (x86 : ℕ) → d.State → ℕ
get_physical_broadcast d def entry vendor x86 s =
    if modern_apic d def entry vendor x86 s then 0xff else 0xf
