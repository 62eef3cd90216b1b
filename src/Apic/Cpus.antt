-- ===== src/Apic/Cpus.antt =====
-- Registration of processors in linux/arch/x86/kernel/apic/apic.c: `allocate_logical_cpuid`,
-- `generic_processor_info` and the tables that they fill. APIC ids are not negative; `none` in
-- `cpuid_to_apicid` is the -1 of an unused place. The version of an APIC selects warnings only,
-- and is left out.
pub mod Alloc
pub mod Complete
pub mod Limits
pub mod Order
pub mod Register
use resume_from_edk2_tooling.Base.{
  ℕ, zero, suc, ◌+◌, ◌-◌, ◌%◌, ◌^◌, Bool, true, false, not, ◌&&◌, Option, none, some, List, [], ◌∷◌,
  ◌==◌, leb, ltb, if◌then◌else◌,
}

-- What other parts of the kernel have set before: `bad_apicid` is BAD_APICID, `own_apicid` what
-- `read_apic_id` returns.
pub record Env : Type 0 where
  pub nr_cpu_ids : ℕ
  pub boot_cpu_physical_apicid : ℕ
  pub own_apicid : ℕ
  pub disabled_cpu_apicid : ℕ
  pub bad_apicid : ℕ

pub record Cpus : Type 0 where
  pub nr_logical_cpuids : ℕ
  pub cpuid_to_apicid : ℕ → Option ℕ
  pub num_processors : ℕ
  pub disabled_cpus : ℕ
  pub max_physical_apicid : ℕ
  pub cpu_to_apicid : ℕ → ℕ
  pub bios_cpu_apicid : ℕ → ℕ
  pub cpu_possible : ℕ → Bool
  pub cpu_present : ℕ → Bool
  pub phys_cpu_present_map : ℕ → Bool

-- The tables as the kernel starts; `boot_cpu_init` has marked CPU 0 as there.
unfoldable pub initial : Env → Cpus
initial env = record {
  nr_logical_cpuids = 1;
  cpuid_to_apicid = λ _. none;
  num_processors = 0;
  disabled_cpus = 0;
  max_physical_apicid = 0;
  cpu_to_apicid = λ _. env.bad_apicid % 2 ^ 16;
  bios_cpu_apicid = λ _. env.bad_apicid % 2 ^ 16;
  cpu_possible = λ c. c == 0;
  cpu_present = λ c. c == 0;
  phys_cpu_present_map = λ _. false;
}

pub data Errno : Type 0 where
  einval : Errno
  enodev : Errno

pub data Reply : Type 0 where
  cpu : ℕ → Reply
  refused : Errno → Reply

abbrev pub put {ℓ} : {A : Type ℓ} → (ℕ → A) → ℕ → A → ℕ → A
put f i v j = if i == j then v else f j

abbrev pub holds : Option ℕ → ℕ → Bool
holds none apicid = false
holds (some a) apicid = a == apicid

-- The loop over the ids from `i` on, with `left` of them to go.
unfoldable pub find_cpuid : (ℕ → Option ℕ) → ℕ → (left i : ℕ) → Option ℕ
find_cpuid f apicid zero i = none
find_cpuid f apicid (suc left) i =
    let rest = find_cpuid f apicid left (i + 1) in if holds (f i) apicid then some i else rest

-- The second half of the function, reached if the loop finds no id.
unfoldable pub new_cpuid : Env → Cpus → ℕ → Reply × Cpus
new_cpuid env s apicid = if leb env.nr_cpu_ids s.nr_logical_cpuids then (refused einval, s) else (
  cpu s.nr_logical_cpuids,
  record s {
    cpuid_to_apicid = put s.cpuid_to_apicid s.nr_logical_cpuids (some apicid);
    nr_logical_cpuids = s.nr_logical_cpuids + 1;
  },
)

abbrev pub found_or : Option ℕ → Cpus → Reply × Cpus → Reply × Cpus
found_or (some i) s other = (cpu i, s)
found_or none s other = other

unfoldable pub allocate_logical_cpuid : Env → Cpus → ℕ → Reply × Cpus
allocate_logical_cpuid env s apicid =
    found_or (find_cpuid s.cpuid_to_apicid apicid s.nr_logical_cpuids 0) s (new_cpuid env s apicid)

unfoldable pub refuse : Errno → Cpus → Reply × Cpus
refuse e s = (refused e, record s { disabled_cpus = (s.disabled_cpus + 1) % 2 ^ 32 })

-- Logical id 0 for the boot processor, and an allocated one for any other.
unfoldable pub assign : Env → Cpus → ℕ → Reply × Cpus
assign env s apicid =
    if apicid == env.boot_cpu_physical_apicid
    then (cpu 0, record s { cpuid_to_apicid = put s.cpuid_to_apicid 0 (some apicid) })
    else allocate_logical_cpuid env s apicid

-- The tables are filled in once the logical id is known; the two tables of ids by CPU are u16.
unfoldable pub enter : ℕ → Reply × Cpus → Reply × Cpus
enter apicid (refused e, s) = refuse einval s
enter apicid (cpu c, s) = (
  cpu c,
  record s {
    max_physical_apicid =
        if ltb s.max_physical_apicid apicid then apicid else s.max_physical_apicid;
    cpu_to_apicid = put s.cpu_to_apicid c (apicid % 2 ^ 16);
    bios_cpu_apicid = put s.bios_cpu_apicid c (apicid % 2 ^ 16);
    cpu_possible = put s.cpu_possible c true;
    phys_cpu_present_map = put s.phys_cpu_present_map apicid true;
    cpu_present = put s.cpu_present c true;
    num_processors = s.num_processors + 1;
  },
)

abbrev pub is_disabled : Env → ℕ → Bool
is_disabled env apicid =
    not (env.disabled_cpu_apicid == env.bad_apicid)
    && not (env.disabled_cpu_apicid == env.own_apicid)
    && env.disabled_cpu_apicid == apicid

-- One place is kept for a boot processor that has not been seen; `nr_cpu_ids - 1` is unsigned.
abbrev pub is_reserved : Env → Cpus → ℕ → Bool
is_reserved env s apicid =
    not (s.phys_cpu_present_map env.boot_cpu_physical_apicid)
    && leb ((env.nr_cpu_ids + 2 ^ 32 - 1) % 2 ^ 32) s.num_processors
    && not (apicid == env.boot_cpu_physical_apicid)

unfoldable pub generic_processor_info : Env → ℕ → Cpus → Reply × Cpus
generic_processor_info env apicid s =
    if is_disabled env apicid
    then refuse enodev s
    else if is_reserved env s apicid
    then refuse enodev s
    else if leb env.nr_cpu_ids s.num_processors
    then refuse einval s
    else enter apicid (assign env s apicid)

-- Registrations one after another, whatever their replies: the calls that the readers of the
-- firmware's tables make.
unfoldable pub register_all : Env → List ℕ → Cpus → Cpus
register_all env [] s = s
register_all env (a ∷ rest) s = register_all env rest (generic_processor_info env a s).1
