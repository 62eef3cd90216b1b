-- ===== src/Tests/DetectTests.antt =====
-- A 32-bit machine whose BIOS has left the APIC off, and processors of two threads.
use resume_from_edk2_tooling.Base.{ℕ, ◌^◌, bit_and, true, false, not, ◌==◌, if◌then◌else◌}
use resume_from_edk2_tooling.Apic.Detect.{Found, Detection, intel, detect_init_apic_32}
use resume_from_edk2_tooling.Apic.Detect.Address.{IsDetected, detect_init_apic_32-Detected}
use resume_from_edk2_tooling.Tests.DeviceTests.{manual}

abbrev asked : Found
asked = record {
  vendor = intel;
  x86 = 6;
  x86_model = 8;
  disable_apic = false;
  force_enable_local_apic = true;
  default_phys_base = 0xfee00000;
  cpuid_apic = λ base. not (bit_and base (2 ^ 11) == 0);
}

abbrev switched_off : Detection
switched_off = record {
  base = 0;
  has_apic = false;
  mp_lapic_addr = 0;
  enabled_via_apicbase = false;
  active = false;
}

detect_init_apic_32-Detected_example :
    IsDetected manual asked switched_off (detect_init_apic_32 manual asked switched_off)
detect_init_apic_32-Detected_example = detect_init_apic_32-Detected manual asked switched_off

-- The place of the highest bit, for one and two threads.
abbrev fls : ℕ → ℕ
fls n = if n == 1 then 1 else 2
