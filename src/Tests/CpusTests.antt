-- ===== src/Tests/CpusTests.antt =====
-- Four processors on a machine for four: the boot processor has APIC id 2.
use resume_from_edk2_tooling.Base.{ℕ, ◌<◌, ◌≡◌, ◌↔◌, refl, arith, List, [], ◌∷◌, true, false, some}
use resume_from_edk2_tooling.Apic.Cpus.{
  Env, initial, generic_processor_info, register_all, cpu, assign, enter, refuse,
  allocate_logical_cpuid, new_cpuid, find_cpuid,
}
use resume_from_edk2_tooling.Apic.Cpus.Complete.{listed}
use resume_from_edk2_tooling.Apic.Cpus.Order.{Fits, register_all_complete}
use resume_from_edk2_tooling.Apic.Cpus.Register.{Outcome, generic_processor_info-Outcome}
use resume_from_edk2_tooling.Apic.Cpus.Limits.{
  IsEnv, IsValid, initial-IsValid, generic_processor_info-IsValid, boot_never_refused,
  distinct_cpus,
}

abbrev quad : Env
quad = record {
  nr_cpu_ids = 4;
  boot_cpu_physical_apicid = 2;
  own_apicid = 2;
  disabled_cpu_apicid = 0xffff;
  bad_apicid = 0xffff;
}

quad-IsEnv : IsEnv quad
quad-IsEnv = record { positive = omega arith; small = omega arith }

quad-IsValid : IsValid quad (initial quad)
quad-IsValid = initial-IsValid quad quad-IsEnv

abbrev crowd : List ℕ
crowd = 7 ∷ 5 ∷ 9 ∷ 11 ∷ 13 ∷ []

-- The processor 7 becomes number 1.
first_seven : (generic_processor_info quad 7 (initial quad)).0 ≡ cpu 1
unfolding generic_processor_info refuse assign enter allocate_logical_cpuid new_cpuid find_cpuid
    initial
first_seven = refl

boot_unseen : (register_all quad crowd (initial quad)).phys_cpu_present_map 2 ≡ false
unfolding register_all generic_processor_info refuse assign enter allocate_logical_cpuid new_cpuid
    find_cpuid initial
boot_unseen = refl

then_nine :
    (generic_processor_info quad 9
      (register_all quad (5 ∷ []) (generic_processor_info quad 7 (initial quad)).1)).0
    ≡ cpu 3
unfolding register_all generic_processor_info refuse assign enter allocate_logical_cpuid new_cpuid
    find_cpuid initial
then_nine = refl

generic_processor_info-IsValid_example :
    IsValid quad (generic_processor_info quad 7 (initial quad)).1
generic_processor_info-IsValid_example =
    generic_processor_info-IsValid quad 7 (initial quad) quad-IsEnv quad-IsValid

generic_processor_info-Outcome_example :
    Outcome quad 7 (initial quad) (generic_processor_info quad 7 (initial quad))
generic_processor_info-Outcome_example =
    generic_processor_info-Outcome quad 7 (initial quad) quad-IsValid.ids

boot_never_refused_example :
    (generic_processor_info quad 2 (register_all quad crowd (initial quad))).0 ≡ cpu 0
boot_never_refused_example = boot_never_refused quad crowd quad-IsEnv refl boot_unseen

distinct_cpus_example : ◌≡◌ {A = ℕ} 1 3 ↔ ◌≡◌ {A = ℕ} 7 9
distinct_cpus_example =
    distinct_cpus quad 7 9 (5 ∷ []) (initial quad) 1 3 quad-IsEnv quad-IsValid first_seven then_nine

-- Four processors that fit, and the same with the boot processor first.
abbrev family : List ℕ
family = 7 ∷ 2 ∷ 5 ∷ 9 ∷ []

family-Fits : Fits quad family
family-Fits = record { apart = refl; boot = refl; fits = omega arith; usable = λ a m. refl }

register_all_complete_example :
    let t = register_all quad family (initial quad) in
    (t.num_processors ≡ 4)
    × (t.disabled_cpus ≡ 0)
    × ((a : ℕ) → t.phys_cpu_present_map a ≡ listed a family)
    × ((a : ℕ) → listed a family ≡ true → (c : ℕ) × (c < 4) × (t.cpuid_to_apicid c ≡ some a))
register_all_complete_example = register_all_complete quad family quad-IsEnv family-Fits
