-- ===== src/Apic/Drivers/Table.antt =====
-- `struct apic`, the functions of the driver in use, and how the kernel calls them, in
-- linux/arch/x86/include/asm/apic.h; `apic_set_eoi_write`, `hard_smp_processor_id` and
-- `lapic_timer_broadcast` of linux/arch/x86/kernel/apic/apic.c; and small functions of
-- the header.
use resume_from_edk2_tooling.Base.{ℕ, Bool, not, ◌&&◌, leb, if◌then◌else◌, List, [], ◌∷◌}
use resume_from_edk2_tooling.Base.Int.{ℤ, negsuc}
use resume_from_edk2_tooling.Apic.Device.{Device, Reg, id}
use resume_from_edk2_tooling.Apic.Drivers.{Layout, not}

-- `S` is what the functions work on, and `Text` the strings. Registers are given by their offsets;
-- sets of CPUs and of APIC ids are functions, and a set that a member fills in is its result.
pub record ApicDriver (S Text : Type 0) : Type 0 where
  pub eoi_write : (reg v : ℕ) → S → S
  pub native_eoi_write : (reg v : ℕ) → S → S
  pub write : (reg v : ℕ) → S → S
  pub read : (reg : ℕ) → S → ℕ
  pub wait_icr_idle : S → S
  pub safe_wait_icr_idle : S → ℕ × S
  pub send_ipi : (cpu vector : ℕ) → S → S
  pub send_ipi_mask : (mask : ℕ → Bool) (vector : ℕ) → S → S
  pub send_ipi_mask_allbutself : (mask : ℕ → Bool) (vector : ℕ) → S → S
  pub send_ipi_allbutself : (vector : ℕ) → S → S
  pub send_ipi_all : (vector : ℕ) → S → S
  pub send_ipi_self : (vector : ℕ) → S → S
  pub dest_logical : ℕ
  pub disable_esr : ℕ
  pub irq_delivery_mode : ℕ
  pub irq_dest_mode : ℕ
  pub calc_dest_apicid : (cpu : ℕ) → ℕ
  pub icr_read : S → ℕ
  pub icr_write : (low high : ℕ) → S → S
  pub probe : S → ℤ
  pub acpi_madt_oem_check : (oem_id oem_table_id : Text) → ℤ
  pub apic_id_valid : (apicid : ℕ) → ℤ
  pub apic_id_registered : S → ℤ
  pub check_apicid_used : (ids : ℕ → Bool) (apicid : ℤ) → Bool
  pub init_apic_ldr : S → S
  pub ioapic_phys_id_map : (phys_map : ℕ → Bool) → ℕ → Bool
  pub setup_apic_routing : S → S
  pub cpu_present_to_apicid : (mps_cpu : ℤ) → ℤ
  pub apicid_to_cpu_present : (phys_apicid : ℤ) → ℕ → Bool
  pub check_phys_apicid_present : (phys_apicid : ℤ) → ℤ
  pub phys_pkg_id : (cpuid_apic index_msb : ℤ) → ℤ
  pub get_apic_id : ℕ → ℕ
  pub set_apic_id : ℕ → ℕ
  pub wakeup_secondary_cpu : (apicid : ℤ) (start_eip : ℕ) → S → ℤ × S
  pub inquire_remote_apic : (apicid : ℤ) → S → S
  pub x86_32_early_logical_apicid : (cpu : ℤ) → ℤ
  pub name : Text

module _ {S Text : Type 0} (apic : ApicDriver S Text) (l : Layout) where
  abbrev pub apic_read : Reg → S → ℕ
  apic_read r s = apic.read (l.offset r) s

  abbrev pub apic_write : Reg → ℕ → S → S
  apic_write r v s = apic.write (l.offset r) v s

  abbrev pub apic_eoi : S → S
  apic_eoi s = apic.eoi_write l.eoi l.eoi_ack s

  abbrev pub apic_icr_read : S → ℕ
  apic_icr_read s = apic.icr_read s

  abbrev pub apic_icr_write : (low high : ℕ) → S → S
  apic_icr_write low high s = apic.icr_write low high s

  abbrev pub apic_wait_icr_idle : S → S
  apic_wait_icr_idle s = apic.wait_icr_idle s

  abbrev pub safe_apic_wait_icr_idle : S → ℕ × S
  safe_apic_wait_icr_idle s = apic.safe_wait_icr_idle s

  abbrev pub ack_apic_irq : S → S
  ack_apic_irq s = apic_eoi s

  unfoldable pub read_apic_id : S → ℕ
  read_apic_id s = let reg = apic_read id s in apic.get_apic_id reg

  unfoldable pub hard_smp_processor_id : S → ℕ
  hard_smp_processor_id s = read_apic_id s

  -- On an SMP kernel; `local_timer_vector` is LOCAL_TIMER_VECTOR.
  abbrev pub lapic_timer_broadcast : (local_timer_vector : ℕ) → (mask : ℕ → Bool) → S → S
  lapic_timer_broadcast local_timer_vector mask s = apic.send_ipi_mask mask local_timer_vector s

  -- The registers as the other models take them.
  abbrev pub device_of : Device
  device_of = record { State = S; read = apic_read; write = apic_write }

-- All drivers in turn.
unfoldable pub apic_set_eoi_write :
    {S Text : Type 0} → ((reg v : ℕ) → S → S) → List (ApicDriver S Text) → List (ApicDriver S Text)
apic_set_eoi_write eoi_write [] = []
apic_set_eoi_write eoi_write (drv ∷ rest) =
    record drv { eoi_write = eoi_write; native_eoi_write = drv.eoi_write }
    ∷ apic_set_eoi_write eoi_write rest

-- The x2APIC has no busy bit to wait for.
abbrev pub native_x2apic_wait_icr_idle : {S : Type 0} → S → S
native_x2apic_wait_icr_idle s = s

abbrev pub native_safe_x2apic_wait_icr_idle : {S : Type 0} → S → ℕ × S
native_safe_x2apic_wait_icr_idle s = (0, s)

abbrev pub apic_from_smp_config : (smp_found_config disable_apic : Bool) → Bool
apic_from_smp_config smp_found_config disable_apic = smp_found_config && not disable_apic

-- `inquire` is the kernel's `__inquire_remote_apic`, which prints; `apic_debug` is APIC_DEBUG.
abbrev pub default_inquire_remote_apic :
    {S : Type 0}
    → (inquire : (apicid : ℤ) → S → S) → (apic_debug apic_verbosity : ℕ) → (apicid : ℤ) → S
    → S
default_inquire_remote_apic inquire apic_debug apic_verbosity apicid s =
    if leb apic_debug apic_verbosity then inquire apicid s else s

-- On a 64-bit kernel; `apic_force_enable` of a 32-bit one is with its detection.
abbrev pub apic_force_enable_64 : (address : ℕ) → ℤ
apic_force_enable_64 address = negsuc 0
