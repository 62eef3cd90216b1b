-- ===== src/Apic/Calibrate.antt =====
-- The calibration of the local APIC's timer in linux/arch/x86/kernel/apic/apic.c. Handler has what
-- is sampled at a tick, Polled the loop that waits for ticks, PmTimer the correction by the ACPI
-- timer, Clock `calibrate_APIC_clock` as a whole; the others have what is proved of them.
pub mod Handler
pub mod Polled
pub mod PmTimer
pub mod Clock
pub mod Ticks
pub mod Correction
pub mod Result
