-- ===== src/Lib.antt =====
-- Verification of the tooling that lets the OVMF firmware resume a virtual machine from a snapshot.
--
-- The repository holds a program that edits a memory dump of the guest (memdump), the code that
-- the guest runs while it is dumped and that the firmware resumes (linux/fs/proc/zzzloop.c), the
-- guest kernel's APIC driver with a debug flag that this code sets (linux/arch/x86), a program that
-- writes the CPU state for the firmware (state-blob), and scripts around QEMU. The firmware and
-- QEMU themselves are not part of it. The parts interact as follows:
-- the guest spins in a loop of zzzloop.c, the dump editor makes the page of the firmware's last
-- trampoline executable in the guest's page tables and marks the task state segment as free, and
-- the resumed guest goes on behind the loop, with the APIC driver as it was.
--
-- Memdump models memdump/modify-mem-dump.c. The dump that `mmap` shows is a function from offsets
-- to bytes with the number of bytes mapped (Image); a load or a store outside of them is a crash,
-- `none`. Paging has the macros and helpers on entries, on 64-bit words; Clear has ClearPageNXFlag
-- (clear_page_nx_flag) and the pointer arithmetic; Program has modify_mem_dump and main. What
-- `open` finds, where `mmap` puts it and what `strtoul` reads are arguments. Walk is an independent
-- page walk of an x86-64 processor; Refine, Preserve, Effect, LargePage and Whole compare the two,
-- Run is a whole run from the command line, and Bounds is about where the accesses fall. Flags has
-- the page flags and protections, and Root what CR3 holds beside the address of the tables.
--
-- Zzzloop models linux/fs/proc/zzzloop.c. Task has zzzloop_main and zzzloop2_main as programs over
-- a point of control: a step is the code's own or a jump of the firmware to a label. Timer has the
-- timer, the counter and the flag as a step relation on the kernel's state: the clock ticks, a
-- pending timer is called, or a /proc file is read. Files has the /proc files.
--
-- StateBlob models state-blob/state-blob.c, whose structure and generated assignments are
-- arguments.
--
-- Apic models linux/arch/x86/kernel/apic/apic.c, of a 64-bit SMP kernel where nothing else is said,
-- and the register access of linux/arch/x86/include/asm/apic.h:
--   Cpus      generic_processor_info and allocate_logical_cpuid, on the tables that they fill;
--   X2apic    the x2APIC switch, on the two enable bits of the MSR, their history and x2apic_state;
--             Reach has its operations as a step relation;
--   EnableIr  enable_IR_x2apic, with the calls that it makes in order;
--   Mappings  init_apic_mappings and detect_init_APIC, on the machine of X2apic;
--   Detect    apic_verify, apic_force_enable and detect_init_APIC of a 32-bit kernel;
--   Device    the registers behind apic_read and apic_write, as an argument, and the constants of
--             the kernel's apicdef.h, which is not in the repository, as a record of parameters;
--   Drivers   the access through memory and through MSRs, and the interrupt command register; Table
--             has struct apic and the calls through it, Alike the interface of drivers that may be
--             put one for another;
--   Lvt       clear_local_APIC, apic_soft_disable, disable_local_APIC, lapic_shutdown;
--   Power     lapic_suspend and lapic_resume;
--   Eilvt     the reservation of extended LVT offsets, with other processors' writes an argument;
--             Cores has any number of processors in turns, in any order, which Serial compares with
--             one alone;
--   Pending   apic_check_and_ack and apic_pending_intr_clear;
--   Setup     setup_local_APIC and lapic_setup_esr;
--   Mode      __apic_intr_mode_select, apic_intr_mode_init, init_bsp_APIC, apic_needs_pit;
--   Bringup   apic_ap_setup and apic_bsp_setup, which put Setup, Mode and Power together;
--   Connect   disconnect_bsp_APIC, sync_Arb_IDs; PicMode has the 32-bit variants and the IMCR;
--   Icr       native_apic_wait_icr_idle and native_safe_apic_wait_icr_idle, on the values that the
--             register shows in turn;
--   Vectors   spurious_interrupt and sysvec_error_interrupt;
--   Timer     __setup_APIC_LVTT, the clock event's operations and the timer's interrupt;
--   Calibrate calibrate_APIC_clock and what it calls, on sequences of readings of the clocks;
--   Deadline  the deadline errata, setup_APIC_timer, setup_boot_APIC_clock, and (Secondary) the
--             other processors' clocks in turn;
--   Params    the parsers of kernel parameters;
--   Initcalls the syscore operations, lapic_update_tsc_freq, and what is called once;
--   Topology  apic_id_is_primary_thread and apic_is_clustered_box.
-- Three modules are about the driver as a whole: Session has its operations on one processor's
-- APIC, in any order and with power cuts, as a list of actions; Width the types of registers; Kept
-- the rules by which a property of the registers goes from statement to statement.
-- Below Session, Silent has the lists of what may follow a shutdown, and Portable the lists that are
-- run with the driver of the memory and with that of the MSRs. What the kernel's handler of the
-- timer's events does to the registers is a parameter (event_handler of Setup's Hooks), of which a
-- theorem says what it needs.
-- A device is used under hypotheses that a register holds what is written to it (Holds) and that
-- the version cannot be written (Fixed). Each is met by the device of Tests/DeviceTests.
--
-- Fuel: the loop of reserve_eilvt_offset takes fuel, of which 2 is enough while no other processor
-- writes the cell; in general it has no bound, and Cores takes the turns from a list instead.
-- apic_pending_intr_clear makes 512 rounds as the code does. In the calibration a wait for a tick
-- takes fuel, one for each poll, and the loops over the ticks take LAPIC_CAL_LOOPS + 3 rounds,
-- which are enough once each wait ends within its fuel; the loop of the verification takes fuel for
-- each test that it makes, which is enough once LAPIC_CAL_LOOPS + 2 interrupts come within it; the code waits without bound, there and in
-- native_apic_wait_icr_idle, which takes fuel as well. All other loops are structural. Words keep
-- their wrap-around at 2^32 or 2^64.
--
-- Not modelled: output to the log and to standard output, msync and the time that calls take;
-- macros that name what their file does not define; the 32-bit variants other than the detection
-- and the connection of the boot processor; the registration of functions with the kernel
-- (initcalls, early parameters); the empty variants for kernels without an APIC; the scripts,
-- which run QEMU, the build files and the documents.
--
-- Base holds the library names that all modules share, and lemmas on bits, digits and lists. Tests
-- holds concrete runs at which the theorems are applied.
pub mod Base
pub mod Apic
pub mod Memdump
pub mod Zzzloop
pub mod StateBlob
mod Tests
