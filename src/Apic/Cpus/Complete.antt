-- ===== src/Apic/Cpus/Complete.antt =====
-- A processor that there is room for is registered.
use resume_from_edk2_tooling.Base.{
  ℕ, ◌+◌, ◌<◌, ◌≡◌, refl, sym, ap, ◌∙◌, ◌⊎◌, inl, inr, Bool, true, false, not, ◌&&◌, ◌||◌, none,
  some, List, [], ◌∷◌, arith, leb, ◌==◌, if◌then◌else◌, Bool-cases, Option-cases, length,
}
use resume_from_edk2_tooling.Apic.Cpus.{
  Env, Cpus, Reply, cpu, refused, assign, enter, is_disabled, is_reserved, generic_processor_info,
  allocate_logical_cpuid, new_cpuid, find_cpuid,
}
use resume_from_edk2_tooling.Apic.Cpus.Alloc.{
  IsIds, find_cpuid-some, assign-GivesId, assign-IsIds, GivesId,
}
use resume_from_edk2_tooling.Apic.Cpus.Register.{
  SameCounts, assign-SameCounts, same-IsIds, enter-ids,
}
use resume_from_edk2_tooling.Apic.Cpus.Limits.{IsEnv}

abbrev pub listed : ℕ → List ℕ → Bool
listed a [] = false
listed a (b ∷ rest) = b == a || listed a rest

abbrev pub distinct : List ℕ → Bool
distinct [] = true
distinct (a ∷ rest) = not (listed a rest) && distinct rest

-- The tables when just the processors of `seen` have been registered.
pub record Seen (env : Env) (seen : List ℕ) (s : Cpus) : Type 0 where
  pub counted : s.num_processors ≡ length seen
  pub none_disabled : s.disabled_cpus ≡ 0
  pub present : (a : ℕ) → s.phys_cpu_present_map a ≡ listed a seen
  pub ids : IsIds env s
  pub known : (c a : ℕ) → s.cpuid_to_apicid c ≡ some a → listed a seen ≡ true
  pub size :
      s.nr_logical_cpuids
      ≡ (if listed env.boot_cpu_physical_apicid seen then length seen else length seen + 1)
  pub mapped :
      (a : ℕ)
      → listed a seen ≡ true
      → (c : ℕ) × (c < env.nr_cpu_ids) × (s.cpuid_to_apicid c ≡ some a)

-- There is room for one more, and for the boot processor if it is still to come.
pub record HasRoom (env : Env) (a : ℕ) (seen : List ℕ) : Type 0 where
  pub fits : length seen < env.nr_cpu_ids
  pub kept :
      listed env.boot_cpu_physical_apicid seen ≡ false
      → (a == env.boot_cpu_physical_apicid) ≡ false
      → length seen + 1 < env.nr_cpu_ids

-- What giving an id to a processor does to the map, when it succeeds.
pub record Given (env : Env) (a : ℕ) (seen : List ℕ) (s : Cpus) (r : Reply × Cpus) : Type 0 where
  pub id : ℕ
  pub reply : r.0 ≡ cpu id
  pub size : r.1.nr_logical_cpuids ≡ (
      if listed env.boot_cpu_physical_apicid (a ∷ seen) then length seen + 1 else length seen + 2)
  pub known : (c b : ℕ) → r.1.cpuid_to_apicid c ≡ some b → (b ≡ a) ⊎ (s.cpuid_to_apicid c ≡ some b)

module _ (env : Env) (a : ℕ) (seen : List ℕ) (s : Cpus) (v : Seen env seen s) where
  new_to_all : listed a seen ≡ false → find_cpuid s.cpuid_to_apicid a s.nr_logical_cpuids 0 ≡ none
  new_to_all new = elim (Option-cases (find_cpuid s.cpuid_to_apicid a s.nr_logical_cpuids 0)) [
    | inl out ↦ out
    | inr (i, hit) ↦ absurd (
        ground (
          arith,
          new,
          v.known i a (find_cpuid-some s.cpuid_to_apicid a s.nr_logical_cpuids 0 i hit).0,
        ))
  ]

  assign-Given : listed a seen ≡ false → HasRoom env a seen → Given env a seen s (assign env s a)
  unfolding assign allocate_logical_cpuid new_cpuid
  assign-Given new room = elim (Bool-cases (a == env.boot_cpu_physical_apicid)) [
    | inl boot ↦
        let same : a ≡ env.boot_cpu_physical_apicid = ground arith in
        let not_seen : listed env.boot_cpu_physical_apicid seen ≡ false =
          ap (λ x. listed x seen) (sym same) ∙ new in
        rw boot (record {
          id = 0;
          reply = refl;
          size = ground (arith, v.size, not_seen);
          known = λ c b h. ground arith;
        })
    | inr other ↦
        let free : leb env.nr_cpu_ids s.nr_logical_cpuids ≡ false =
          ground (arith, v.size, room.fits, room.kept) in
        rw (other, new_to_all new, free)
          (record {
            id = s.nr_logical_cpuids;
            reply = refl;
            size = ground (arith, v.size);
            known = λ c b h. ground arith;
          })
  ]

  enter-Seen :
      (r : Reply × Cpus)
      → SameCounts s r
      → GivesId env a s v.ids r
      → Given env a seen s r
      → IsIds env (enter a r).1
      → Seen env (a ∷ seen) (enter a r).1
  unfolding enter
  enter-Seen (refused e, t) same gives g ids = absurd cc
  enter-Seen (cpu c, t) same gives g ids =
      let mine : (c < env.nr_cpu_ids)
          × (t.cpuid_to_apicid c ≡ some a)
          × ((d b : ℕ) → s.cpuid_to_apicid d ≡ some b → t.cpuid_to_apicid d ≡ some b) =
        gives c refl in
      record {
        counted = omega (arith, same.processors, v.counted);
        none_disabled = same.disabled ∙ v.none_disabled;
        present = λ b. ground (arith, ap (λ f. f b) same.physical, v.present b);
        ids = ids;
        known = λ d b h. ground (arith, g.known d b h, v.known d b);
        size = ground (arith, g.size);
        mapped = λ b h. elim (Bool-cases (a == b)) [
          | inl e ↦ let here : a ≡ b = ground arith in (c, mine.0, mine.1 ∙ ap some here)
          | inr e ↦ let old = v.mapped b (ground arith) in (old.0, old.1, mine.2 old.0 b old.2)
        ];
      }

  -- A registration of a processor that is new and may be used.
  pub generic_processor_info-Seen :
      IsEnv env
      → is_disabled env a ≡ false
      → listed a seen ≡ false
      → HasRoom env a seen
      → Seen env (a ∷ seen) (generic_processor_info env a s).1
  unfolding generic_processor_info
  generic_processor_info-Seen w on new room =
      let free : is_reserved env s a ≡ false = ground (
        arith,
        v.present env.boot_cpu_physical_apicid,
        v.counted,
        room.kept,
        w.small,
        w.positive,
      ) in
      let fits : leb env.nr_cpu_ids s.num_processors ≡ false =
        ground (arith, v.counted, room.fits) in
      let same = enter-ids a (assign env s a) in
      let ids : IsIds env (enter a (assign env s a)).1 =
        same-IsIds env _ _ same.0 same.1 (assign-IsIds env a s v.ids) in
      rw (on, free, fits)
        (enter-Seen (assign env s a) (assign-SameCounts env a s) (assign-GivesId env a s v.ids)
          (assign-Given new room) ids)
