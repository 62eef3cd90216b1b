-- ===== src/Tests/TimerTests.antt =====
-- The timer and the interrupt modes at concrete values.
use resume_from_edk2_tooling.Base.{◌≡◌, refl, true, false}
use resume_from_edk2_tooling.Apic.Timer.{ClockEvent}
use resume_from_edk2_tooling.Apic.Mode.{
  pic, symmetric_io, Setup, chosen, apic_intr_mode_select, choose_intr_mode, apic_needs_pit, Clocks,
}

abbrev early : ClockEvent
early = record { is_dummy = false; has_event_handler = false }

abbrev pub smp : Setup
smp = record {
  disable_apic = false;
  has_apic = true;
  smp_found_config = true;
  acpi_lapic = true;
  setup_max_cpus = 8;
  read_apic_id = 0;
  boot_cpu_physical_apicid = 0;
  ioapic_disabled = false;
  apic_intr_mode = pic;
}

abbrev smp_chosen : Setup
smp_chosen = record smp { apic_intr_mode = symmetric_io }

abbrev pub clocks : Clocks
clocks = record {
  tsc_khz = 2000000;
  cpu_khz = 2000000;
  has_arat = true;
  has_tsc_deadline = true;
  disable_apic_timer = false;
  lapic_timer_period = 0;
}

smp_choice : apic_intr_mode_select smp ≡ chosen symmetric_io smp_chosen
unfolding apic_intr_mode_select choose_intr_mode
smp_choice = refl

no_pit : apic_needs_pit clocks smp_chosen ≡ false
unfolding apic_needs_pit
no_pit = refl
