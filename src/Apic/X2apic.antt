-- ===== src/Apic/X2apic.antt =====
-- The x2APIC switch of linux/arch/x86/kernel/apic/apic.c, with `x2apic_enabled` of
-- linux/arch/x86/include/asm/apic.h. The MSR IA32_APICBASE is shown by its two enable bits, and by
-- `rest` for all others. Kernel facilities outside these files (the hypervisor's answer, interrupt
-- remapping, the I/O APIC) are arguments, or calls that are recorded in order.
pub mod Modes
pub mod Remap
pub mod Reach
use resume_from_edk2_tooling.Base.{
  ℕ, Bool, true, false, not, ◌&&◌, ◌||◌, Option, none, some, List, [], ◌∷◌, ◌==◌, leb, ltb,
  if◌then◌else◌, ◌^◌,
}

pub record Msr : Type 0 where
  pub x2apic_enable : Bool
  pub xapic_enable : Bool
  pub rest : ℕ

pub data State : Type 0 where
  off : State
  on : State
  disabled : State

abbrev pub is_on : State → Bool
is_on on = true
is_on _ = false

abbrev pub is_off : State → Bool
is_off off = true
is_off _ = false

abbrev pub is_disabled : State → Bool
is_disabled disabled = true
is_disabled _ = false

abbrev pub is_none : Option ℕ → Bool
is_none none = true
is_none (some a) = false

-- `before` holds the values that the MSR had, the last one first; `lapic_address` the
-- address that the APIC's registers are mapped at. `none` in `boot_cpu_physical_apicid` is -1U.
pub record Machine : Type 0 where
  pub msr : Msr
  pub before : List Msr
  pub x2apic_mode : Bool
  pub x2apic_state : State
  pub x2apic_phys : Bool
  pub has_apic : Bool
  pub has_x2apic : Bool
  pub apic_id : ℕ
  pub max_physical_apicid : ℕ
  pub mp_lapic_addr : ℕ
  pub lapic_address : Option ℕ
  pub boot_cpu_physical_apicid : Option ℕ

pub data Result : Type 0 where
  ok : Machine → Result
  panic : Result

abbrev pub wrmsr : Msr → Machine → Machine
wrmsr v s = record s { msr = v; before = s.msr ∷ s.before }

-- `__x2apic_disable`
unfoldable pub hw_disable : Machine → Machine
hw_disable s =
    if not s.has_apic
    then s
    else if not s.msr.x2apic_enable
    then s
    else wrmsr (record (s.msr) { x2apic_enable = false })
        (wrmsr (record (s.msr) { x2apic_enable = false; xapic_enable = false }) s)

-- `__x2apic_enable`
unfoldable pub hw_enable : Machine → Machine
hw_enable s = if s.msr.x2apic_enable then s else wrmsr (record (s.msr) { x2apic_enable = true }) s

-- `readable` says that the MSR can be read.
unfoldable pub apic_is_x2apic_enabled : Bool → Machine → Bool
apic_is_x2apic_enabled readable s = if readable then s.msr.x2apic_enable else false

unfoldable pub x2apic_enabled : Bool → Machine → Bool
x2apic_enabled readable s = s.has_x2apic && apic_is_x2apic_enabled readable s

abbrev pub forget_x2apic : Machine → Machine
forget_x2apic s = record s { has_x2apic = false; x2apic_state = disabled; x2apic_mode = false }

-- The id is compared as a signed number, in which those from 2^31 on are negative.
unfoldable pub setup_nox2apic : Bool → Machine → Machine
setup_nox2apic readable s =
    if x2apic_enabled readable s
    then (if leb 255 s.apic_id && ltb s.apic_id (2 ^ 31) then s else forget_x2apic (hw_disable s))
    else forget_x2apic s

unfoldable pub x2apic_setup : Machine → Machine
x2apic_setup s = if not (is_on s.x2apic_state) then hw_disable s else hw_enable s

-- The version of the boot processor's APIC, which is read beside its id, is not kept.
unfoldable pub register_lapic_address : ℕ → Machine → Machine
register_lapic_address a s = record s {
  mp_lapic_addr = a;
  lapic_address = if s.x2apic_mode then s.lapic_address else some a;
  boot_cpu_physical_apicid =
      if is_none s.boot_cpu_physical_apicid then some s.apic_id else s.boot_cpu_physical_apicid;
}

unfoldable pub x2apic_disable : Machine → Result
x2apic_disable s =
    let t = record s { x2apic_mode = false; x2apic_state = disabled } in
    if not (is_on s.x2apic_state)
    then ok t
    else if leb 255 s.apic_id
    then panic
    else ok (register_lapic_address s.mp_lapic_addr (hw_disable t))

unfoldable pub x2apic_enable : Machine → Machine
x2apic_enable s =
    if not (is_off s.x2apic_state)
    then s
    else hw_enable (record s { x2apic_mode = true; x2apic_state = on })

-- `remapped` says that `remap_mode` is IRQ_REMAP_X2APIC_MODE, `available` is the answer of
-- `x86_init.hyper.x2apic_available`.
unfoldable pub try_to_enable_x2apic : (remapped available : Bool) → Machine → Result
try_to_enable_x2apic remapped available s =
    if is_disabled s.x2apic_state
    then ok s
    else if not remapped
    then (if ltb 255 s.max_physical_apicid || not available
        then x2apic_disable s
        else ok (x2apic_enable (record s { x2apic_phys = true })))
    else ok (x2apic_enable s)

unfoldable pub check_x2apic : Bool → Machine → Machine
check_x2apic readable s =
    if x2apic_enabled readable s
    then record s { x2apic_mode = true; x2apic_state = on }
    else (if not s.has_x2apic then record s { x2apic_state = disabled } else s)
