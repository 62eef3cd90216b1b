-- ===== src/Tests/X2apicTests.antt =====
-- A machine that the firmware has left in xAPIC mode, and one in x2APIC mode with a large id.
use resume_from_edk2_tooling.Base.{◌≡◌, ◌↔◌, ◌⊎◌, ◌<◌, ◌≤◌, refl, true, false, [], ◌∷◌, none}
use resume_from_edk2_tooling.Base.Int.{pos}
use resume_from_edk2_tooling.Apic.X2apic.{
  off, on, Machine, ok, panic, x2apic_setup, try_to_enable_x2apic, x2apic_enable, hw_enable,
}
use resume_from_edk2_tooling.Apic.X2apic.Modes.{IsSound}
use resume_from_edk2_tooling.Apic.X2apic.Reach.{
  IsFresh, start, later, try_it, bring_up, Reach-IsSound,
}
use resume_from_edk2_tooling.Apic.X2apic.Remap.{try_to_enable_x2apic-panic}
use resume_from_edk2_tooling.Apic.EnableIr.{Platform, enable_ir_x2apic}

abbrev machine : Machine
machine = record {
  msr = record { x2apic_enable = false; xapic_enable = true; rest = 0 };
  before = [];
  x2apic_mode = false;
  x2apic_state = off;
  x2apic_phys = false;
  has_apic = true;
  has_x2apic = true;
  apic_id = 3;
  max_physical_apicid = 7;
  mp_lapic_addr = 0xfee00000;
  lapic_address = none;
  boot_cpu_physical_apicid = none;
}

-- The machine once the x2APIC has been enabled.
abbrev enabled_machine : Machine
enabled_machine = record machine {
  msr = record { x2apic_enable = true; xapic_enable = true; rest = 0 };
  before = machine.msr ∷ [];
  x2apic_mode = true;
  x2apic_state = on;
}

enabling : try_to_enable_x2apic true true machine ≡ ok enabled_machine
unfolding try_to_enable_x2apic x2apic_enable hw_enable
enabling = refl

machine-IsFresh : IsFresh machine
machine-IsFresh = record { not_yet = refl; is_off = refl; enabled = refl; unwritten = refl }

Reach-IsSound_example : IsSound (x2apic_setup enabled_machine)
Reach-IsSound_example =
    Reach-IsSound machine-IsFresh (later (later start (try_it true true enabling)) bring_up)

try_to_enable_x2apic-panic_example :
    (try_to_enable_x2apic false false enabled_machine ≡ panic)
    ↔ ((on ≡ on) × (false ≡ false) × ((255 < 7) ⊎ (false ≡ false)) × (255 ≤ 3))
try_to_enable_x2apic-panic_example = try_to_enable_x2apic-panic false false enabled_machine

abbrev remapping : Platform
remapping = record {
  skip_ioapic_setup = false;
  prepared = pos 0;
  save_failed = false;
  enabled = pos 1;
  is_x2apic_mode = λ _. true;
  available = true;
}

switched : (enable_ir_x2apic remapping machine).1 ≡ ok enabled_machine
unfolding enable_ir_x2apic
switched = enabling
