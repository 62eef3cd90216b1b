-- ===== src/Apic.antt =====
-- linux/arch/x86/kernel/apic/apic.c, the local APIC driver of the guest kernel, as built for a
-- 64-bit SMP kernel.
pub mod Cpus
pub mod EnableIr
pub mod Device
pub mod Lvt
pub mod Power
pub mod Eilvt
pub mod Mode
pub mod Timer
pub mod Params
pub mod Calibrate
pub mod Deadline
pub mod Pending
pub mod Setup
pub mod Icr
pub mod Initcalls
pub mod Vectors
pub mod Kept
pub mod Width
pub mod Session
pub mod X2apic
pub mod Connect
pub mod Detect
pub mod Topology
pub mod Drivers
pub mod Bringup
pub mod Mappings
