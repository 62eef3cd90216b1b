-- ===== src/Tests/DriverTests.antt =====
-- The registers through memory and MSRs that keep what is written, ids that are read from them,
-- devices with a new frequency, and the mappings of a machine without an APIC.
use resume_from_edk2_tooling.Base.{
  ℕ, ◌*◌, ◌^◌, refl, true, false, none, List, [], ◌∷◌, leb, ◌≤◌, bit_or, arith, ◌==◌, if◌then◌else◌,
  ◌≡◌, some,
}
use resume_from_edk2_tooling.Apic.Device.{number, Device}
use resume_from_edk2_tooling.Apic.Drivers.{Bus, Layout, native_apic_msr_read, default_get_apic_id}
use resume_from_edk2_tooling.Apic.Drivers.Access.{Keeps}
use resume_from_edk2_tooling.Apic.Drivers.Alike.{AreApart, SameRegs, by_memory, by_msr}
use resume_from_edk2_tooling.Apic.Session.{Session}
use resume_from_edk2_tooling.Apic.Session.Portable.{
  Operation, Driven, SameSession, session, session-SameSession,
}
use resume_from_edk2_tooling.Apic.Setup.{Hooks}
use resume_from_edk2_tooling.Apic.Bringup.{Board}
use resume_from_edk2_tooling.Apic.Connect.{EntryDef, modern_apic}
use resume_from_edk2_tooling.Apic.Connect.PicMode.{get_physical_broadcast}
use resume_from_edk2_tooling.Apic.Connect.Broadcast.{default_get_apic_id-bounded}
use resume_from_edk2_tooling.Apic.Detect.{amd}
use resume_from_edk2_tooling.Apic.Calibrate.Clock.{Template}
use resume_from_edk2_tooling.Apic.Deadline.{ThisCpu, lapic_clockevent}
use resume_from_edk2_tooling.Tests.DeviceTests.{
  board, manual, manual-DefFits, wires, empty_pm, plain_boot,
}
use resume_from_edk2_tooling.Apic.X2apic.{Machine, off}
use resume_from_edk2_tooling.Apic.Mappings.{Mappings, Outside, init_apic_mappings}
use resume_from_edk2_tooling.Apic.Mappings.Identity.{IsKnown, init_apic_mappings-IsKnown}

-- Words of memory and MSRs.
abbrev Store : Type 0
Store = (ℕ → ℕ) × (ℕ → ℕ)

abbrev bus : Bus
bus = record {
  State = Store;
  load = λ p s. s.0 p;
  store = λ q v s. (λ p. if p == q then v else s.0 p, s.1);
  rdmsr = λ p s. s.1 p;
  wrmsr = λ q v s. (s.0, λ p. if p == q then v else s.1 p);
}

abbrev layout : Layout
layout = record {
  offset = λ r. 16 * number r;
  base = 0xfee00000;
  base_msr = 0x800;
  eoi = 0xb0;
  eoi_ack = 0;
  set_dest_field = λ n. n * 2 ^ 24;
}

bus-Keeps : Keeps bus
bus-Keeps = record { memory = λ p q v s. refl; msrs = λ p q v s. refl }

abbrev sevens : Store
sevens = (λ p. 7, λ p. 7)

layout-AreApart : AreApart bus bus layout
layout-AreApart = record { addresses = λ r q. ground arith; numbers = λ r q. ground arith }

sevens-SameRegs : SameRegs (by_memory bus bus layout) (by_msr bus bus layout) sevens sevens
unfolding native_apic_msr_read
sevens-SameRegs = record { reads = λ r plain. rw plain refl; narrow = λ r plain. omega arith }

abbrev entry_fields : EntryDef
entry_fields = record {
  mode_mask = 0x700;
  send_pending = 2 ^ 12;
  input_polarity = 2 ^ 13;
  remote_irr = 2 ^ 14;
  level_trigger = 2 ^ 15;
  set_delivery_mode = λ value mode. bit_or value mode;
  mode_extint = 0x700;
  mode_nmi = 0x400;
  sync_command = 0x88500;
}

-- Nothing beside the registers, for either driver.
abbrev idle_hooks : (d : Device) → Hooks d
idle_hooks d = record {
  apic_id_registered = λ s. true;
  init_apic_ldr = λ s. s;
  ack_apic_irq = λ s. s;
  event_handler = λ j s. s;
  perf_events_lapic_init = λ s. s;
  cmci_recheck = λ s. s;
  disable_esr = false;
  tpri_mask = 0xff;
}

abbrev idle_board : (d : Device) → Board d
idle_board d = record {
  set_apic_id = λ n. n;
  physid_set_mask_of_physid = λ p map n. n == p;
  default_setup_apic_routing = λ s. s;
  enable_io_apic = λ s. s;
  irq_remap_enable_fault_handling = λ s. s;
  setup_io_apic = λ s. s;
}

abbrev driven : (d : Device) → Driven d
driven d = record { hooks = idle_hooks d; board = idle_board d }

abbrev running : Session Store
running = record {
  up = record {
    apic = sevens;
    pm = empty_pm;
    phys_cpu_present_map = λ _. false;
    ioapic_disabled = false;
  };
  base = 0xfee00900;
}

abbrev operations : List Operation
operations =
    Operation.next_event 1000
    ∷ Operation.timer_interrupt 1 250 (record { is_dummy = false; has_event_handler = false })
    ∷ Operation.error_interrupt 0
    ∷ Operation.suspend plain_boot
    ∷ Operation.shutdown true true true
    ∷ []

session-SameSession_example :
    (x : Session Store) × (y : Session Store) × (session
        (by_memory bus bus layout)
        manual
        wires
        entry_fields
        (driven _)
        operations
        running
      ≡ some x)
    × (session (by_msr bus bus layout) manual wires entry_fields (driven _) operations running
        ≡ some y)
    × SameSession (by_memory bus bus layout) (by_msr bus bus layout) x y
session-SameSession_example =
    session-SameSession bus bus layout manual wires entry_fields (driven _) (driven _) bus-Keeps
      bus-Keeps layout-AreApart manual-DefFits (λ s t h. h) (λ j s t h. h) operations running
      running (tt, (tt, (tt, (tt, (tt, tt))))) (record { regs = sevens-SameRegs; active = refl })

default_get_apic_id-bounded_example :
    default_get_apic_id board manual (leb 0x14) true 0x37000000 (λ _. 0x10)
    ≤ get_physical_broadcast board manual entry_fields amd 0xf (λ _. 0x10)
unfolding modern_apic
default_get_apic_id-bounded_example =
    default_get_apic_id-bounded board manual entry_fields amd 0xf (leb 0x14) true 0x37000000
      (λ _. 0x10) (λ v. refl) (λ _. refl)

abbrev retuned_cpus : List (ThisCpu × Template)
retuned_cpus =
    (
      record { has_arat = true; has_tsc_deadline = true; tsc_khz = 2100000; processor_id = 0 },
      lapic_clockevent,
    )
    ∷ (
      record { has_arat = true; has_tsc_deadline = false; tsc_khz = 2100000; processor_id = 1 },
      lapic_clockevent,
    )
    ∷ []

abbrev bare_machine : Machine
bare_machine = record {
  msr = record { x2apic_enable = false; xapic_enable = false; rest = 0 };
  before = [];
  x2apic_mode = false;
  x2apic_state = off;
  x2apic_phys = false;
  has_apic = false;
  has_x2apic = false;
  apic_id = 3;
  max_physical_apicid = 7;
  mp_lapic_addr = 0;
  lapic_address = none;
  boot_cpu_physical_apicid = none;
}

abbrev bare : Mappings
bare = record {
  machine = bare_machine;
  boot = record { has_deadline = true; has_hypervisor = false; microcode = 0 };
  smp_found_config = false;
  acpi_lapic = false;
  apic_phys = 0;
  noop = false;
  boot_cpu_apic_version = 0;
}

abbrev outside : Outside
outside = record {
  default_phys_base = 0xfee00000;
  noop_id = 0;
  version = λ b. if b then 0 else 0x15;
  x86_match_cpu = λ table. none;
}

init_apic_mappings-IsKnown_example : IsKnown outside bare (init_apic_mappings outside bare)
init_apic_mappings-IsKnown_example = init_apic_mappings-IsKnown outside bare
