-- ===== src/Apic/Cpus/Register.antt =====
-- `generic_processor_info`: its outcomes, the invariant of its tables, and the place kept for the
-- boot processor.
use resume_from_edk2_tooling.Base.{
  ℕ, ◌+◌, ◌%◌, ◌^◌, ◌≤◌, ◌<◌, ◌≡◌, refl, arith, some, true, ◌==◌, Bool-cases, inl, inr,
  Option-cases, leb, ap,
}
use resume_from_edk2_tooling.Apic.Cpus.{
  Env, Cpus, Reply, cpu, refused, Errno, assign, enter, refuse, is_disabled, is_reserved,
  generic_processor_info, allocate_logical_cpuid, new_cpuid, find_cpuid,
}
use resume_from_edk2_tooling.Apic.Cpus.Alloc.{IsIds, assign-IsIds, assign-GivesId, GivesId}

-- A registration that fails leaves the tables alone and counts the processor as disabled; one
-- that succeeds enters the processor under an id in range, counts it, and keeps every mapping.
pub record Entered (env : Env) (a : ℕ) (s : Cpus) (c : ℕ) (t : Cpus) : Type 0 where
  pub in_range : c < env.nr_cpu_ids
  pub mapped : t.cpuid_to_apicid c ≡ some a
  pub counted : t.num_processors ≡ s.num_processors + 1
  pub not_disabled : t.disabled_cpus ≡ s.disabled_cpus
  pub listed : (t.cpu_to_apicid c ≡ a % 2 ^ 16) × (t.bios_cpu_apicid c ≡ a % 2 ^ 16)
  pub present : (t.cpu_possible c ≡ true) × (t.cpu_present c ≡ true)
  pub physical : t.phys_cpu_present_map a ≡ true
  pub highest : (a ≤ t.max_physical_apicid) × (s.max_physical_apicid ≤ t.max_physical_apicid)
  pub kept : (d b : ℕ) → s.cpuid_to_apicid d ≡ some b → t.cpuid_to_apicid d ≡ some b

-- What giving an id leaves alone: all but the map and its size, and all where it fails.
pub record SameCounts (s : Cpus) (r : Reply × Cpus) : Type 0 where
  pub processors : r.1.num_processors ≡ s.num_processors
  pub disabled : r.1.disabled_cpus ≡ s.disabled_cpus
  pub highest : r.1.max_physical_apicid ≡ s.max_physical_apicid
  pub physical : r.1.phys_cpu_present_map ≡ s.phys_cpu_present_map
  pub failed : (e : Errno) → r.0 ≡ refused e → r.1 ≡ s

pub assign-SameCounts : (env : Env) (a : ℕ) (s : Cpus) → SameCounts s (assign env s a)
unfolding assign allocate_logical_cpuid new_cpuid
assign-SameCounts env a s = elim (Bool-cases (a == env.boot_cpu_physical_apicid)) [
  | inl boot ↦ rw boot (record {
    processors = refl;
    disabled = refl;
    highest = refl;
    physical = refl;
    failed = λ e h. cc;
  })
  | inr other ↦ elim (Option-cases (find_cpuid s.cpuid_to_apicid a s.nr_logical_cpuids 0)) [
    | inr (i, hit) ↦
        rw (other, hit)
          (record {
            processors = refl;
            disabled = refl;
            highest = refl;
            physical = refl;
            failed = λ e h. refl;
          })
    | inl out ↦ elim (Bool-cases (leb env.nr_cpu_ids s.nr_logical_cpuids)) [
      | inl full ↦
          rw (other, out, full)
            (record {
              processors = refl;
              disabled = refl;
              highest = refl;
              physical = refl;
              failed = λ e h. refl;
            })
      | inr room ↦
          rw (other, out, room)
            (record {
              processors = refl;
              disabled = refl;
              highest = refl;
              physical = refl;
              failed = λ e h. cc;
            })
    ]
  ]
]

-- A registration that fails only counts a disabled processor; one that succeeds enters it.
abbrev pub Outcome : Env → ℕ → Cpus → Reply × Cpus → Type 0
Outcome env a s (refused e, t) = t ≡ record s { disabled_cpus = (s.disabled_cpus + 1) % 2 ^ 32 }
Outcome env a s (cpu c, t) = Entered env a s c t

module _ (env : Env) (a : ℕ) (s : Cpus) (v : IsIds env s) where
  enter-Outcome :
      (r : Reply) (t : Cpus)
      → SameCounts s (r, t)
      → GivesId env a s v (r, t)
      → Outcome env a s (enter a (r, t))
  unfolding enter refuse
  enter-Outcome (refused e) t same gives =
      ap (λ (u : Cpus). record u { disabled_cpus = (u.disabled_cpus + 1) % 2 ^ 32 })
        (same.failed e refl)
  enter-Outcome (cpu c) t same gives =
      let (lt, at, keeps) = gives c refl in
      record {
        in_range = lt;
        mapped = at;
        counted = omega (arith, same.processors);
        not_disabled = same.disabled;
        listed = (ground arith, ground arith);
        present = (ground arith, ground arith);
        physical = ground arith;
        highest = (ground arith, ground (arith, same.highest));
        kept = keeps;
      }

  -- On tables with valid ids, a registration that is refused only counts a disabled processor, in
  -- 32 bits; one that succeeds enters the processor in every table under an id in range, in the two
  -- tables of `u16` with the low 16 bits of its APIC id, counts it, and keeps every id given before.
  pub generic_processor_info-Outcome : Outcome env a s (generic_processor_info env a s)
  unfolding generic_processor_info refuse
  generic_processor_info-Outcome = elim (Bool-cases (is_disabled env a)) [
    | inl off ↦ rw off refl
    | inr on ↦ elim (Bool-cases (is_reserved env s a)) [
      | inl kept ↦ rw (on, kept) refl
      | inr free ↦ elim (Bool-cases (leb env.nr_cpu_ids s.num_processors)) [
        | inl full ↦ rw (on, free, full) refl
        | inr room ↦
            rw (on, free, room)
              (enter-Outcome (assign env s a).0 (assign env s a).1 (assign-SameCounts env a s)
                (assign-GivesId env a s v))
      ]
    ]
  ]

pub same-IsIds :
    (env : Env) (s t : Cpus)
    → t.nr_logical_cpuids ≡ s.nr_logical_cpuids
    → t.cpuid_to_apicid ≡ s.cpuid_to_apicid
    → IsIds env s
    → IsIds env t
same-IsIds env s t p q v = record {
  positive = rw p v.positive;
  bounded = rw p v.bounded;
  unused = rw (p, q) v.unused;
  zero_boot = rw q v.zero_boot;
  boot_zero = rw q v.boot_zero;
  injective = rw q v.injective;
}

pub enter-ids :
    (a : ℕ) (r : Reply × Cpus)
    → ((enter a r).1.nr_logical_cpuids ≡ r.1.nr_logical_cpuids)
      × ((enter a r).1.cpuid_to_apicid ≡ r.1.cpuid_to_apicid)
unfolding enter refuse
enter-ids a (refused e, t) = (refl, refl)
enter-ids a (cpu c, t) = (refl, refl)

pub generic_processor_info-IsIds :
    (env : Env) (a : ℕ) (s : Cpus) → IsIds env s → IsIds env (generic_processor_info env a s).1
unfolding generic_processor_info refuse
generic_processor_info-IsIds env a s v = elim (Bool-cases (is_disabled env a)) [
  | inl off ↦ rw off (same-IsIds env s _ refl refl v)
  | inr on ↦ elim (Bool-cases (is_reserved env s a)) [
    | inl kept ↦ rw (on, kept) (same-IsIds env s _ refl refl v)
    | inr free ↦ elim (Bool-cases (leb env.nr_cpu_ids s.num_processors)) [
      | inl full ↦ rw (on, free, full) (same-IsIds env s _ refl refl v)
      | inr room ↦
          let same = enter-ids a (assign env s a) in
          rw (on, free, room) (same-IsIds env _ _ same.0 same.1 (assign-IsIds env a s v))
    ]
  ]
]
