-- ===== src/Apic/Cpus/Alloc.antt =====
-- Logical ids: each names one APIC id, and id 0 is the boot processor's.
use resume_from_edk2_tooling.Base.{
  ℕ, zero, suc, ◌+◌, ◌≤◌, ◌<◌, ◌≡◌, ◌≢◌, arith, Option, none, some, true, ◌==◌, Bool-cases, inl,
  inr, Option-cases,
}
use resume_from_edk2_tooling.Apic.Cpus.{
  Env, Cpus, Reply, cpu, put, holds, find_cpuid, new_cpuid, allocate_logical_cpuid, assign,
}

pub record IsIds (env : Env) (s : Cpus) : Type 0 where
  pub positive : 1 ≤ s.nr_logical_cpuids
  pub bounded : s.nr_logical_cpuids ≤ env.nr_cpu_ids
  pub unused : (c : ℕ) → s.nr_logical_cpuids ≤ c → s.cpuid_to_apicid c ≡ none
  pub zero_boot : (a : ℕ) → s.cpuid_to_apicid 0 ≡ some a → a ≡ env.boot_cpu_physical_apicid
  pub boot_zero : (c : ℕ) → s.cpuid_to_apicid c ≡ some env.boot_cpu_physical_apicid → c ≡ 0
  pub injective : (c d a : ℕ) → s.cpuid_to_apicid c ≡ some a → s.cpuid_to_apicid d ≡ some a → c ≡ d

holds-some : (o : Option ℕ) (a : ℕ) → holds o a ≡ true → o ≡ some a
holds-some none a h = cc
holds-some (some b) a h = ground arith

some-holds : (o : Option ℕ) (a : ℕ) → o ≡ some a → holds o a ≡ true
some-holds none a h = cc
some-holds (some b) a h = ground arith

module _ (f : ℕ → Option ℕ) (a : ℕ) where
  pub find_cpuid-some :
      (left i c : ℕ) → find_cpuid f a left i ≡ some c → (f c ≡ some a) × (i ≤ c) × (c < i + left)
  unfolding find_cpuid
  find_cpuid-some zero i c h = cc
  find_cpuid-some (suc left) i c h = elim (Bool-cases (holds (f i) a)) [
    | inl hit ↦ ground (arith, holds-some (f i) a hit)
    | inr miss ↦ ground (arith, find_cpuid-some left (i + 1) c)
  ]

  pub find_cpuid-none :
      (left i c : ℕ) → find_cpuid f a left i ≡ none → i ≤ c → c < i + left → f c ≢ some a
  unfolding find_cpuid
  find_cpuid-none zero i c h lo hi = absurd (omega arith)
  find_cpuid-none (suc left) i c h lo hi =
      λ e. ground (arith, some-holds (f c) a e, find_cpuid-none left (i + 1) c)

module _ (env : Env) (a : ℕ) (s : Cpus) (v : IsIds env s) where
  -- With one use of an id the loop returns that id.
  pub find_cpuid_unique :
      (c : ℕ)
      → s.cpuid_to_apicid c ≡ some a
      → find_cpuid s.cpuid_to_apicid a s.nr_logical_cpuids 0 ≡ some c
  find_cpuid_unique c e =
      elim (Option-cases (find_cpuid s.cpuid_to_apicid a s.nr_logical_cpuids 0)) [
        | inl out ↦ absurd (
            ground
              (arith, v.unused c, find_cpuid-none s.cpuid_to_apicid a s.nr_logical_cpuids 0 c out))
        | inr (d, hit) ↦ ground (
          arith,
          find_cpuid-some s.cpuid_to_apicid a s.nr_logical_cpuids 0 d hit,
          v.injective c d a e,
        )
      ]

  -- Only an id that the loop does not find is given a new place.
  not_found :
      find_cpuid s.cpuid_to_apicid a s.nr_logical_cpuids 0 ≡ none
      → (c : ℕ) → s.cpuid_to_apicid c ≢ some a
  not_found out c e =
      ground (arith, v.unused c, find_cpuid-none s.cpuid_to_apicid a s.nr_logical_cpuids 0 c out)

  new_cpuid-IsIds :
      a ≢ env.boot_cpu_physical_apicid
      → ((c : ℕ) → s.cpuid_to_apicid c ≢ some a)
      → IsIds env (new_cpuid env s a).1
  unfolding new_cpuid
  new_cpuid-IsIds ne out = record {
    positive = ground (arith, v.positive);
    bounded = ground (arith, v.bounded);
    unused = λ c h. ground (arith, v.unused c);
    zero_boot = λ b h. ground (arith, v.zero_boot b, v.positive);
    boot_zero = λ c h. ground (arith, v.boot_zero c);
    injective = λ c d b p q. ground (arith, v.injective c d b, out c, out d);
  }

  boot-IsIds :
      a ≡ env.boot_cpu_physical_apicid
      → IsIds env (record s { cpuid_to_apicid = put s.cpuid_to_apicid 0 (some a) })
  boot-IsIds e = record {
    positive = v.positive;
    bounded = v.bounded;
    unused = λ c h. ground (arith, v.unused c, v.positive);
    zero_boot = λ b h. ground arith;
    boot_zero = λ c h. ground (arith, v.boot_zero c);
    injective = λ c d b p q. ground (arith, v.injective c d b, v.boot_zero c, v.boot_zero d);
  }

  pub assign-IsIds : IsIds env (assign env s a).1
  unfolding assign allocate_logical_cpuid
  assign-IsIds = elim (Bool-cases (a == env.boot_cpu_physical_apicid)) [
    | inl boot ↦ rw boot (boot-IsIds (ground arith))
    | inr other ↦ elim (Option-cases (find_cpuid s.cpuid_to_apicid a s.nr_logical_cpuids 0)) [
      | inl out ↦ rw (other, out) (new_cpuid-IsIds (ground arith) (not_found out))
      | inr (c, hit) ↦ rw (other, hit) v
    ]
  ]

  abbrev pub GivesId : Reply × Cpus → Type 0
  GivesId (r, t) =
      (c : ℕ)
      → r ≡ cpu c
      → (c < env.nr_cpu_ids)
        × (t.cpuid_to_apicid c ≡ some a)
        × ((d b : ℕ) → s.cpuid_to_apicid d ≡ some b → t.cpuid_to_apicid d ≡ some b)

  new_cpuid-GivesId : GivesId (new_cpuid env s a)
  unfolding new_cpuid
  new_cpuid-GivesId c h = (ground arith, ground arith, λ d b e. ground (arith, v.unused d))

  boot-GivesId :
      a ≡ env.boot_cpu_physical_apicid
      → GivesId (cpu 0, record s { cpuid_to_apicid = put s.cpuid_to_apicid 0 (some a) })
  boot-GivesId boot c h =
      (ground (arith, v.positive, v.bounded), ground arith, λ d b e. ground (arith, v.zero_boot b))

  found-GivesId :
      (i : ℕ) → find_cpuid s.cpuid_to_apicid a s.nr_logical_cpuids 0 ≡ some i → GivesId (cpu i, s)
  found-GivesId i hit c h =
      let facts = find_cpuid-some s.cpuid_to_apicid a s.nr_logical_cpuids 0 i hit in
      (ground (arith, facts, v.bounded), ground (arith, facts), λ d b e. e)

  -- The id that is given maps back to the APIC id, and every mapping of before stays.
  pub assign-GivesId : GivesId (assign env s a)
  unfolding assign allocate_logical_cpuid
  assign-GivesId = elim (Bool-cases (a == env.boot_cpu_physical_apicid)) [
    | inl boot ↦ rw boot (boot-GivesId (ground arith))
    | inr other ↦ elim (Option-cases (find_cpuid s.cpuid_to_apicid a s.nr_logical_cpuids 0)) [
      | inl out ↦ rw (other, out) new_cpuid-GivesId
      | inr (i, hit) ↦ rw (other, hit) (found-GivesId i hit)
    ]
  ]
