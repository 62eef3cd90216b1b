-- ===== src/Apic/Cpus/Limits.antt =====
-- How many processors are registered, and the place kept for the boot processor.
use resume_from_edk2_tooling.Base.{
  ℕ, ◌+◌, ◌≤◌, ◌<◌, ◌^◌, ◌≡◌, refl, arith, some, true, false, ◌==◌, Bool-cases, inl, inr, ap, subst,
  ◌∙◌, ◌↔◌, leb, List, [], ◌∷◌,
}
use resume_from_edk2_tooling.Apic.Cpus.{
  Env, Cpus, Reply, cpu, refused, assign, enter, refuse, is_disabled, is_reserved,
  generic_processor_info, initial, register_all,
}
use resume_from_edk2_tooling.Apic.Cpus.Alloc.{IsIds}
use resume_from_edk2_tooling.Apic.Cpus.Register.{
  SameCounts, assign-SameCounts, generic_processor_info-IsIds, generic_processor_info-Outcome,
  Outcome, Entered,
}

-- `nr_cpu_ids` is a positive `unsigned int`.
pub record IsEnv (env : Env) : Type 0 where
  pub positive : 1 ≤ env.nr_cpu_ids
  pub small : env.nr_cpu_ids < 2 ^ 32

pub record IsCounted (env : Env) (s : Cpus) : Type 0 where
  pub counted : s.num_processors ≤ env.nr_cpu_ids
  pub kept :
      s.phys_cpu_present_map env.boot_cpu_physical_apicid ≡ false
      → s.num_processors + 1 ≤ env.nr_cpu_ids

pub record IsValid (env : Env) (s : Cpus) : Type 0 where
  pub ids : IsIds env s
  pub counts : IsCounted env s

enter-IsCounted :
    (env : Env) (a : ℕ) (s : Cpus) (r : Reply × Cpus)
    → IsEnv env
    → SameCounts s r
    → IsCounted env s
    → is_reserved env s a ≡ false
    → leb env.nr_cpu_ids s.num_processors ≡ false
    → IsCounted env (enter a r).1
unfolding enter refuse
enter-IsCounted env a s (refused e, t) w same v free room = record {
  counted = omega (arith, v.counted, same.processors);
  kept = ground (arith, v.kept, same.processors, same.physical);
}
enter-IsCounted env a s (cpu c, t) w same v free room = record {
  counted = ground (arith, same.processors);
  kept = ground (arith, v.kept, w.positive, w.small, same.processors, same.physical);
}

pub generic_processor_info-IsCounted :
    (env : Env) (a : ℕ) (s : Cpus)
    → IsEnv env
    → IsCounted env s
    → IsCounted env (generic_processor_info env a s).1
unfolding generic_processor_info refuse
generic_processor_info-IsCounted env a s w v = elim (Bool-cases (is_disabled env a)) [
  | inl off ↦ rw off (record { counted = v.counted; kept = v.kept })
  | inr on ↦ elim (Bool-cases (is_reserved env s a)) [
    | inl kept ↦ rw (on, kept) (record { counted = v.counted; kept = v.kept })
    | inr free ↦ elim (Bool-cases (leb env.nr_cpu_ids s.num_processors)) [
      | inl full ↦ rw (on, free, full) (record { counted = v.counted; kept = v.kept })
      | inr room ↦
          rw (on, free, room)
            (enter-IsCounted env a s (assign env s a) w (assign-SameCounts env a s) v free room)
    ]
  ]
]

-- For a positive `nr_cpu_ids` of 32 bits, a registration, whatever its outcome, keeps the tables
-- valid: ids are in range, distinct for distinct processors, 0 for the boot processor alone, no
-- more processors are counted than there are ids, and a place is free for the boot processor until
-- it comes.
pub generic_processor_info-IsValid :
    (env : Env) (a : ℕ) (s : Cpus)
    → IsEnv env
    → IsValid env s
    → IsValid env (generic_processor_info env a s).1
generic_processor_info-IsValid env a s w v = record {
  ids = generic_processor_info-IsIds env a s v.ids;
  counts = generic_processor_info-IsCounted env a s w v.counts;
}

pub initial-IsValid : (env : Env) → IsEnv env → IsValid env (initial env)
unfolding initial
initial-IsValid env w = record {
  ids = record {
    positive = omega arith;
    bounded = w.positive;
    unused = λ c h. refl;
    zero_boot = λ a h. cc;
    boot_zero = λ c h. cc;
    injective = λ c d a p q. cc;
  };
  counts = record { counted = omega arith; kept = λ _. w.positive };
}

register_all-IsValid :
    (env : Env) (l : List ℕ) (s : Cpus)
    → IsEnv env
    → IsValid env s
    → IsValid env (register_all env l s)
unfolding register_all
register_all-IsValid env [] s w v = v
register_all-IsValid env (a ∷ rest) s w v =
    register_all-IsValid env rest (generic_processor_info env a s).1 w
      (generic_processor_info-IsValid env a s w v)

boot_first :
    (env : Env) (s : Cpus)
    → IsValid env s
    → is_disabled env env.boot_cpu_physical_apicid ≡ false
    → s.phys_cpu_present_map env.boot_cpu_physical_apicid ≡ false
    → (generic_processor_info env env.boot_cpu_physical_apicid s).0 ≡ cpu 0
unfolding generic_processor_info enter assign
boot_first env s v on new =
    let own : (env.boot_cpu_physical_apicid == env.boot_cpu_physical_apicid) ≡ true =
      ground arith in
    let free : is_reserved env s env.boot_cpu_physical_apicid ≡ false = ground (arith, own) in
    let room : leb env.nr_cpu_ids s.num_processors ≡ false = ground (arith, v.counts.kept new) in
    rw (on, free, room, own)

-- For a positive `nr_cpu_ids` of 32 bits, however many processors are registered first, the boot
-- processor, when it is listed for the first time, is registered as processor 0, unless the user
-- has disabled it by its APIC id.
pub boot_never_refused :
    (env : Env) (l : List ℕ)
    → IsEnv env
    → is_disabled env env.boot_cpu_physical_apicid ≡ false
    → (register_all env l (initial env)).phys_cpu_present_map env.boot_cpu_physical_apicid ≡ false
    → (generic_processor_info env env.boot_cpu_physical_apicid (register_all env l (initial env))).0
      ≡ cpu 0
boot_never_refused env l w =
    boot_first env (register_all env l (initial env))
      (register_all-IsValid env l (initial env) w (initial-IsValid env w))

Outcome-Entered :
    (env : Env) (a : ℕ) (s : Cpus) (r : Reply × Cpus) (c : ℕ)
    → Outcome env a s r
    → r.0 ≡ cpu c
    → Entered env a s c r.1
Outcome-Entered env a s (refused e, t) c o h = absurd (cc)
Outcome-Entered env a s (cpu d, t) c o h =
    let same : d ≡ c = ground arith in subst (λ x. Entered env a s x t) same o

Outcome-kept :
    (env : Env) (a : ℕ) (s : Cpus) (r : Reply × Cpus) (d b : ℕ)
    → Outcome env a s r
    → s.cpuid_to_apicid d ≡ some b
    → r.1.cpuid_to_apicid d ≡ some b
Outcome-kept env a s (refused e, t) d b o h = ap (λ u. u.cpuid_to_apicid d) o ∙ h
Outcome-kept env a s (cpu c, t) d b o h = o.kept d b h

register_all-kept :
    (env : Env) (l : List ℕ) (s : Cpus) (d b : ℕ)
    → IsEnv env
    → IsValid env s
    → s.cpuid_to_apicid d ≡ some b
    → (register_all env l s).cpuid_to_apicid d ≡ some b
unfolding register_all
register_all-kept env [] s d b w v h = h
register_all-kept env (a ∷ rest) s d b w v h =
    register_all-kept env rest (generic_processor_info env a s).1 d b w
      (generic_processor_info-IsValid env a s w v)
      (Outcome-kept env a s _ d b (generic_processor_info-Outcome env a s v.ids) h)

-- For a positive `nr_cpu_ids` of 32 bits and valid tables, two registrations that succeed, with any
-- registrations between, give the same id exactly if they are of the same APIC id.
pub distinct_cpus :
    (env : Env) (a b : ℕ) (l : List ℕ) (s : Cpus) (c d : ℕ)
    → IsEnv env
    → IsValid env s
    → (generic_processor_info env a s).0 ≡ cpu c
    → (generic_processor_info env b (register_all env l (generic_processor_info env a s).1)).0
      ≡ cpu d
    → (c ≡ d) ↔ (a ≡ b)
distinct_cpus env a b l s c d w v first again =
    let s1 = (generic_processor_info env a s).1 in
    let s2 = register_all env l s1 in
    let v1 = generic_processor_info-IsValid env a s w v in
    let v2 = register_all-IsValid env l s1 w v1 in
    let v3 = generic_processor_info-IsValid env b s2 w v2 in
    let in1 = Outcome-Entered env a s _ c (generic_processor_info-Outcome env a s v.ids) first in
    let in3 = Outcome-Entered env b s2 _ d (generic_processor_info-Outcome env b s2 v2.ids) again in
    let at3 = in3.kept c a (register_all-kept env l s1 c a w v1 in1.mapped) in
    (
      λ same. ground (
        arith,
        at3,
        in3.mapped,
        ap (λ t. (generic_processor_info env b s2).1.cpuid_to_apicid t) same,
      ),
      λ same. v3.ids.injective c d b (at3 ∙ ap some same) in3.mapped,
    )
