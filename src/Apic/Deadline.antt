-- ===== src/Apic/Deadline.antt =====
-- The deadline timer's errata and the registration of the timer as a clock event device:
-- `deadline_match`, `apic_validate_deadline_timer`, `setup_APIC_timer`, `__lapic_update_tsc_freq`,
-- `setup_boot_APIC_clock` and `setup_secondary_APIC_clock` of linux/arch/x86/kernel/apic/apic.c.
pub mod Registered
pub mod Secondary
pub mod Errata
use resume_from_edk2_tooling.Base.{
  ℕ, ◌-◌, ◌*◌, ◌/◌, ◌%◌, ◌^◌, Bool, true, false, not, Option, none, some, List, [], ◌∷◌, ltb, leb,
  if◌then◌else◌,
}
use resume_from_edk2_tooling.Apic.Device.{Device, ApicDef}
use resume_from_edk2_tooling.Apic.Timer.{tsc_divisor}
use resume_from_edk2_tooling.Apic.Calibrate.Handler.{Rates}
use resume_from_edk2_tooling.Apic.Calibrate.Polled.{Source, At}
use resume_from_edk2_tooling.Apic.Calibrate.Clock.{
  Template, Kernel, Timing, Arrivals, calibrate_apic_clock,
}

-- The models of family 6 in the table; their numbers are the kernel's.
pub data Model : Type 0 where
  haswell_x broadwell_x broadwell_d skylake_x haswell haswell_l haswell_g : Model
  broadwell broadwell_g skylake_l skylake kabylake_l kabylake : Model

-- An entry: a model, its steppings from the first to the last if they matter, and `driver_data`.
pub record X86CpuId : Type 0 where
  pub model : Model
  pub steppings : Option (ℕ × ℕ)
  pub driver_data : ℕ

-- X86_MATCH_INTEL_FAM6_MODEL_STEPPINGS and X86_MATCH_INTEL_FAM6_MODEL.
abbrev pub stepped : Model → (first last revision : ℕ) → X86CpuId
stepped m first last revision = record {
  model = m;
  steppings = some (first, last);
  driver_data = revision;
}

abbrev pub unstepped : Model → (revision : ℕ) → X86CpuId
unstepped m revision = record { model = m; steppings = none; driver_data = revision }

abbrev pub deadline_match : List X86CpuId
deadline_match =
    stepped haswell_x 0x2 0x2 0x3a
    ∷ stepped haswell_x 0x4 0x4 0x0f
    ∷ unstepped broadwell_x 0x0b000020
    ∷ stepped broadwell_d 0x2 0x2 0x00000011
    ∷ stepped broadwell_d 0x3 0x3 0x0700000e
    ∷ stepped broadwell_d 0x4 0x4 0x0f00000c
    ∷ stepped broadwell_d 0x5 0x5 0x0e000003
    ∷ stepped skylake_x 0x3 0x3 0x01000136
    ∷ stepped skylake_x 0x4 0x4 0x02000014
    ∷ stepped skylake_x 0x5 0xf 0
    ∷ unstepped haswell 0x22
    ∷ unstepped haswell_l 0x20
    ∷ unstepped haswell_g 0x17
    ∷ unstepped broadwell 0x25
    ∷ unstepped broadwell_g 0x17
    ∷ unstepped skylake_l 0xb2
    ∷ unstepped skylake 0xb2
    ∷ unstepped kabylake_l 0x52
    ∷ unstepped kabylake 0x52
    ∷ []

-- What the kernel knows of the boot processor.
pub record BootCpu : Type 0 where
  pub has_deadline : Bool
  pub has_hypervisor : Bool
  pub microcode : ℕ

-- `matched` is what the kernel's `x86_match_cpu` finds in the table. The Boolean is the result.
abbrev pub checked : Option X86CpuId → BootCpu → Bool × BootCpu
checked none c = (true, c)
checked (some m) c =
    if leb (m.driver_data % 2 ^ 32) c.microcode
    then (true, c)
    else (false, record c { has_deadline = false })

unfoldable pub apic_validate_deadline_timer :
    (x86_match_cpu : List X86CpuId → Option X86CpuId) → BootCpu → Bool × BootCpu
apic_validate_deadline_timer x86_match_cpu c =
    if not c.has_deadline
    then (false, c)
    else (if c.has_hypervisor then (true, c) else checked (x86_match_cpu deadline_match) c)

-- `lapic_clockevent` as it is at first.
abbrev pub lapic_clockevent : Template
lapic_clockevent = record {
  is_dummy = true;
  c3stop = true;
  rating = 100;
  mult = 0;
  max_delta_ns = 0;
  max_delta_ticks = 0;
  min_delta_ns = 0;
  min_delta_ticks = 0;
}

-- A CPU's device: what it copied from the template, its CPU, and whether it is the deadline one,
-- which has another name and `set_next_event`.
pub record Levt : Type 0 where
  pub copied : Template
  pub is_periodic : Bool
  pub is_deadline : Bool
  pub cpu : ℕ

-- The two ways into the framework: with a frequency in Hz/1000 and limits, or as it is.
pub data Registration : Type 0 where
  config_and_register : Levt → (freq min_delta max_delta : ℕ) → Registration
  register_device : Levt → Registration

abbrev pub device : Registration → Levt
device (config_and_register l freq min_delta max_delta) = l
device (register_device l) = l

-- Features of this CPU, and TSC's frequency.
pub record ThisCpu : Type 0 where
  pub has_arat : Bool
  pub has_tsc_deadline : Bool
  pub tsc_khz : ℕ
  pub processor_id : ℕ

abbrev pub deadline_freq : ThisCpu → ℕ
deadline_freq c = c.tsc_khz * (1000 / tsc_divisor) % 2 ^ 32

abbrev pub preferred : ThisCpu → Template → Template
preferred c t = if c.has_arat then record t { c3stop = false; rating = 150 } else t

unfoldable pub setup_apic_timer : ThisCpu → Template → Template × Registration
setup_apic_timer c t =
    let t' = preferred c t in
    let levt : Levt = record {
      copied = t';
      is_periodic = true;
      is_deadline = false;
      cpu = c.processor_id;
    } in
    let deadline : Levt = record {
      copied = record t' { is_dummy = false };
      is_periodic = false;
      is_deadline = true;
      cpu = c.processor_id;
    } in
    (
      t',
      if c.has_tsc_deadline
          then config_and_register deadline (deadline_freq c) 0xF (2 ^ 64 - 1)
          else register_device levt,
    )

-- `clockevents_update_freq` on the CPU's device, with the new frequency; nothing elsewhere.
unfoldable pub lapic_update_tsc_freq_on : ThisCpu → Levt → Option (Levt × ℕ)
lapic_update_tsc_freq_on c levt =
    if not c.has_tsc_deadline then none else some (levt, deadline_freq c)

-- What the set-up on a CPU leaves: the variables, the APIC, and what was registered.
pub record Clocked (State : Type 0) : Type 0 where
  pub timing : Timing
  pub apic : State
  pub registered : Option Registration

module _ (d : Device) (def : ApicDef) (amd_e400_c1e_apic_setup : d.State → d.State) where
  abbrev pub registering : ThisCpu → Timing → d.State → Clocked (d.State)
  registering c t s =
      let r = setup_apic_timer c t.lapic_clockevent in
      record {
        timing = record t {
          lapic_clockevent = r.0;
          levt_is_dummy = (device (r.1)).copied.is_dummy;
        };
        apic = s;
        registered = some (r.1);
      }

  abbrev pub untouched : Timing → d.State → Clocked (d.State)
  untouched t s = record { timing = t; apic = s; registered = none }

  unfoldable pub setup_secondary_apic_clock : ThisCpu → Timing → d.State → Clocked (d.State)
  setup_secondary_apic_clock c t s =
      let x = registering c t s in record x { apic = amd_e400_c1e_apic_setup s }

  -- Behind the calibration, with its result.
  abbrev pub calibrated :
      (num_possible_cpus : ℕ)
      → ThisCpu
      → Option (Bool × Timing × d.State)
      → Option (Clocked (d.State))
  calibrated num_possible_cpus c none = none
  calibrated num_possible_cpus c (some (ok, t, s)) =
      let ready = record t {
        lapic_clockevent = record (t.lapic_clockevent) { is_dummy = false };
      } in
      let x = registering c ready s in
      if not ok
      then some (if ltb 1 num_possible_cpus then registering c t s else untouched t s)
      else some (record x { apic = amd_e400_c1e_apic_setup s })

  unfoldable pub setup_boot_apic_clock :
      (k : Kernel)
      → (r : Rates) → (fuel rounds : ℕ) → Source
      → At
      → Arrivals
      → (disable_apic_timer : Bool) → (num_possible_cpus : ℕ) → ThisCpu
      → Timing
      → d.State
      → Option (Clocked (d.State))
  setup_boot_apic_clock k r fuel rounds src start irqs disable_apic_timer num_possible_cpus c t s =
      let single = record t { lapic_clockevent = record (t.lapic_clockevent) { mult = 1 } } in
      if disable_apic_timer
      then some (if ltb 1 num_possible_cpus then registering c single s else untouched t s)
      else calibrated num_possible_cpus c
          (calibrate_apic_clock d def k r fuel rounds src start irqs t s)
