-- ===== src/Apic/Drivers.antt =====
-- The ways to the registers in linux/arch/x86/include/asm/apic.h, through memory and through the
-- MSRs, and the interrupt command register in both, with `native_apic_icr_write` and
-- `native_apic_icr_read` of linux/arch/x86/kernel/apic/apic.c.
pub mod Access
pub mod Alike
pub mod Table
pub mod Command
use resume_from_edk2_tooling.Base.{
  ℕ, ◌+◌, ◌-◌, ◌*◌, ◌/◌, ◌%◌, ◌^◌, bit_and, bit_or, Bool, not, ◌||◌, ◌==◌, if◌then◌else◌,
}
use resume_from_edk2_tooling.Apic.Device.{
  Reg, Device, ApicDef, same, id, lvr, ldr, dfr, icr, icr2, irr, lapic_get_version,
}

-- The register offsets, APIC_BASE and APIC_BASE_MSR, APIC_EOI and APIC_EOI_ACK, and
-- SET_APIC_DEST_FIELD.
pub record Layout : Type 0 where
  pub offset : Reg → ℕ
  pub base : ℕ
  pub base_msr : ℕ
  pub eoi : ℕ
  pub eoi_ack : ℕ
  pub set_dest_field : ℕ → ℕ

-- 32-bit words of memory, and the 64-bit MSRs, as the processor reads and writes them.
pub record Bus : Type 1 where
  pub State : Type 0
  pub load : (address : ℕ) → State → ℕ
  pub store : (address value : ℕ) → State → State
  pub rdmsr : (number : ℕ) → State → ℕ
  pub wrmsr : (number value : ℕ) → State → State

module _ (b : Bus) (l : Layout) where
  abbrev pub native_apic_mem_write : Reg → ℕ → b.State → b.State
  native_apic_mem_write r v s = b.store (l.base + l.offset r) v s

  abbrev pub native_apic_mem_read : Reg → b.State → ℕ
  native_apic_mem_read r s = b.load (l.base + l.offset r) s

  -- The MSR that belongs to an offset.
  abbrev pub msr_of : ℕ → ℕ
  msr_of offset = l.base_msr + offset / 16

  -- Writes to these registers are left out.
  abbrev pub is_dropped : Reg → Bool
  is_dropped r = same r dfr || same r id || same r ldr || same r lvr

  unfoldable pub native_apic_msr_write : Reg → ℕ → b.State → b.State
  native_apic_msr_write r v s = if is_dropped r then s else b.wrmsr (msr_of (l.offset r)) v s

  abbrev pub native_apic_msr_eoi_write : b.State → b.State
  native_apic_msr_eoi_write s = b.wrmsr (msr_of l.eoi) l.eoi_ack s

  unfoldable pub native_apic_msr_read : Reg → b.State → ℕ
  native_apic_msr_read r s =
      if same r dfr then 2 ^ 32 - 1 else b.rdmsr (msr_of (l.offset r)) s % 2 ^ 32

  -- The two drivers, as `apic_read` and `apic_write` reach them.
  abbrev pub mem_driver : Device
  mem_driver = record {
    State = b.State;
    read = native_apic_mem_read;
    write = native_apic_mem_write;
  }

  abbrev pub msr_driver : Device
  msr_driver = record {
    State = b.State;
    read = native_apic_msr_read;
    write = native_apic_msr_write;
  }

  abbrev pub native_x2apic_icr_write : (low dest : ℕ) → b.State → b.State
  native_x2apic_icr_write low dest s =
      b.wrmsr (msr_of (l.offset icr)) (bit_or (dest * 2 ^ 32) low) s

  abbrev pub native_x2apic_icr_read : b.State → ℕ
  native_x2apic_icr_read s = b.rdmsr (msr_of (l.offset icr)) s

-- Through any driver, the destination first.
module _ (d : Device) (l : Layout) where
  unfoldable pub native_apic_icr_write : (low dest : ℕ) → d.State → d.State
  native_apic_icr_write low dest s = d.write icr low (d.write icr2 (l.set_dest_field dest) s)

  unfoldable pub native_apic_icr_read : d.State → ℕ
  native_apic_icr_read s = bit_or (d.read icr s) (d.read icr2 s * 2 ^ 32)

-- Is an interrupt requested? A set has 32 vectors to the word.
abbrev pub lapic_vector_set_in_irr : (d : Device) → (vector : ℕ) → d.State → Bool
lapic_vector_set_in_irr d vector s =
    not (bit_and (d.read (irr (vector / 32)) s) (2 ^ (vector % 32)) == 0)

-- `is_xapic` is APIC_XAPIC, `has_extd_apicid` a feature of the boot CPU.
unfoldable pub default_get_apic_id :
    (d : Device)
    → ApicDef
    → (is_xapic : ℕ → Bool) → (has_extd_apicid : Bool) → (x : ℕ) → d.State
    → ℕ
default_get_apic_id d def is_xapic has_extd_apicid x s =
    if is_xapic (lapic_get_version d def s) || has_extd_apicid
    then bit_and (x / 2 ^ 24) 0xFF
    else bit_and (x / 2 ^ 24) 0x0F
