-- ===== src/Apic/Mappings.antt =====
-- `init_apic_mappings`, `detect_init_APIC`, `apic_disable` and `lapic_insert_resource` of
-- linux/arch/x86/kernel/apic/apic.c, for a 64-bit kernel.
pub mod Identity
use resume_from_edk2_tooling.Base.{
  ℕ, ◌+◌, ◌-◌, ◌%◌, ◌^◌, Bool, true, false, not, ◌&&◌, Option, none, some, List, ◌==◌,
  if◌then◌else◌,
}
use resume_from_edk2_tooling.Apic.Cpus.{holds}
use resume_from_edk2_tooling.Apic.X2apic.{Machine, is_none, register_lapic_address}
use resume_from_edk2_tooling.Apic.Deadline.{X86CpuId, BootCpu, apic_validate_deadline_timer}

-- The machine and the variables beside it; `noop` says that the driver in use is `apic_noop`.
pub record Mappings : Type 0 where
  pub machine : Machine
  pub boot : BootCpu
  pub smp_found_config : Bool
  pub acpi_lapic : Bool
  pub apic_phys : ℕ
  pub noop : Bool
  pub boot_cpu_apic_version : ℕ

-- APIC_DEFAULT_PHYS_BASE, what `apic_noop` answers for an id, what GET_APIC_VERSION finds through
-- each driver, and the kernel's `x86_match_cpu`.
pub record Outside : Type 0 where
  pub default_phys_base : ℕ
  pub noop_id : ℕ
  pub version : (noop : Bool) → ℕ
  pub x86_match_cpu : List X86CpuId → Option X86CpuId

abbrev pub read_apic_id : Outside → Mappings → ℕ
read_apic_id o m = if m.noop then o.noop_id else m.machine.apic_id

-- The Boolean says that 0 is returned.
unfoldable pub detect_init_apic : Outside → Mappings → Bool × Mappings
detect_init_apic o m =
    if not m.machine.has_apic
    then (false, m)
    else (true, record m { machine = record (m.machine) { mp_lapic_addr = o.default_phys_base } })

abbrev pub apic_disable : Mappings → Mappings
apic_disable m = record m { noop = true }

-- With the version, which is read where the id is.
abbrev pub register : Outside → ℕ → Mappings → Mappings
register o address m = record m {
  machine = register_lapic_address address m.machine;
  boot_cpu_apic_version =
      if is_none m.machine.boot_cpu_physical_apicid
      then o.version m.noop % 2 ^ 8
      else m.boot_cpu_apic_version;
}

unfoldable pub map_found : Outside → Mappings → Mappings
map_found o m =
    let placed = record m { apic_phys = m.machine.mp_lapic_addr } in
    if not m.acpi_lapic && not m.smp_found_config
    then register o placed.apic_phys placed
    else placed

unfoldable pub refresh : Outside → Mappings → Mappings
refresh o m =
    let new_apicid = read_apic_id o m in
    if holds m.machine.boot_cpu_physical_apicid new_apicid then m else record m {
      machine = record (m.machine) { boot_cpu_physical_apicid = some new_apicid };
      boot_cpu_apic_version = o.version m.noop % 2 ^ 8;
    }

unfoldable pub init_apic_mappings : Outside → Mappings → Mappings
init_apic_mappings o m =
    let checked = record m { boot = (apic_validate_deadline_timer o.x86_match_cpu m.boot).1 } in
    let own = record (m.machine) { boot_cpu_physical_apicid = some (read_apic_id o checked) } in
    let detected = detect_init_apic o checked in
    if m.machine.x2apic_mode
    then record checked { machine = own }
    else refresh o (
        if m.smp_found_config
        then map_found o checked
        else (if not detected.0 then apic_disable detected.1 else map_found o detected.1))

-- The range put into the resource map; nothing if the APIC was not found.
unfoldable pub lapic_insert_resource : (page_size apic_phys : ℕ) → Option (ℕ × ℕ)
lapic_insert_resource page_size apic_phys =
    if apic_phys == 0 then none else some (apic_phys, apic_phys + page_size - 1)
