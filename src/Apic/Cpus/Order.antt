-- ===== src/Apic/Cpus/Order.antt =====
-- Every processor that there is room for is registered, in whatever order they are listed.
use resume_from_edk2_tooling.Base.{
  ℕ, ◌+◌, ◌≤◌, ◌<◌, ◌≡◌, refl, ◌∙◌, true, false, ◌||◌, some, List, [], ◌∷◌, arith,
}
use resume_from_edk2_tooling.Base.{length}
use resume_from_edk2_tooling.Apic.Cpus.{
  Env, Cpus, is_disabled, generic_processor_info, initial, register_all,
}
use resume_from_edk2_tooling.Apic.Cpus.Limits.{IsEnv, initial-IsValid}
use resume_from_edk2_tooling.Apic.Cpus.Complete.{
  listed, distinct, Seen, HasRoom, generic_processor_info-Seen,
}

-- The processors seen after those of a list, the last one first.
abbrev pub past : List ℕ → List ℕ → List ℕ
past [] seen = seen
past (a ∷ rest) seen = past rest (a ∷ seen)

length-past : (rest seen : List ℕ) → length (past rest seen) ≡ length rest + length seen
length-past [] seen = omega arith
length-past (a ∷ rest) seen = omega (arith, length-past rest (a ∷ seen))

listed-past :
    (a : ℕ) (rest seen : List ℕ) → listed a (past rest seen) ≡ listed a rest || listed a seen
listed-past a [] seen = refl
listed-past a (b ∷ rest) seen = ground (arith, listed-past a rest (b ∷ seen))

listed-length : (a : ℕ) (l : List ℕ) → listed a l ≡ true → 1 ≤ length l
listed-length a [] h = cc
listed-length a (b ∷ rest) h = omega arith

-- The processors of a list may be registered next: they are new, distinct, may be used, and there
-- is room for them and for the boot processor, which has been seen or is among them.
pub record CanFollow (env : Env) (seen rest : List ℕ) : Type 0 where
  pub apart : distinct rest ≡ true
  pub new : (a : ℕ) → listed a rest ≡ true → listed a seen ≡ false
  pub boot :
      listed env.boot_cpu_physical_apicid rest || listed env.boot_cpu_physical_apicid seen ≡ true
  pub fits : length rest + length seen ≤ env.nr_cpu_ids
  pub usable : (a : ℕ) → listed a rest ≡ true → is_disabled env a ≡ false

CanFollow-HasRoom :
    (env : Env) (a : ℕ) (seen rest : List ℕ) → CanFollow env seen (a ∷ rest) → HasRoom env a seen
CanFollow-HasRoom env a seen rest h = record {
  fits = omega (arith, h.fits);
  kept = λ p q. ground (arith, h.boot, listed-length env.boot_cpu_physical_apicid rest, h.fits);
}

CanFollow-tail :
    (env : Env) (a : ℕ) (seen rest : List ℕ)
    → CanFollow env seen (a ∷ rest)
    → CanFollow env (a ∷ seen) rest
CanFollow-tail env a seen rest h = record {
  apart = ground (arith, h.apart);
  new = λ b l. ground (arith, h.apart, h.new b);
  boot = ground (arith, h.boot);
  fits = omega (arith, h.fits);
  usable = λ b l. ground (arith, h.usable b);
}

register_all-Seen :
    (env : Env) (rest seen : List ℕ) (s : Cpus)
    → IsEnv env
    → Seen env seen s
    → CanFollow env seen rest
    → Seen env (past rest seen) (register_all env rest s)
unfolding register_all
register_all-Seen env [] seen s w v h = v
register_all-Seen env (a ∷ rest) seen s w v h =
    let here : listed a (a ∷ rest) ≡ true = ground arith in
    register_all-Seen env rest (a ∷ seen) (generic_processor_info env a s).1 w
      (generic_processor_info-Seen env a seen s v w (h.usable a here) (h.new a here)
        (CanFollow-HasRoom env a seen rest h))
      (CanFollow-tail env a seen rest h)

initial-Seen : (env : Env) → IsEnv env → Seen env [] (initial env)
unfolding initial
initial-Seen env w = record {
  counted = refl;
  none_disabled = refl;
  present = λ a. refl;
  ids = (initial-IsValid env w).ids;
  known = λ c a h. cc;
  size = refl;
  mapped = λ a h. cc;
}

-- The APIC ids of distinct processors, the boot processor among them, none of which is disabled by
-- the user and no more than there are ids.
pub record Fits (env : Env) (l : List ℕ) : Type 0 where
  pub apart : distinct l ≡ true
  pub boot : listed env.boot_cpu_physical_apicid l ≡ true
  pub fits : length l ≤ env.nr_cpu_ids
  pub usable : (a : ℕ) → listed a l ≡ true → is_disabled env a ≡ false

-- If distinct processors are listed, the boot processor among them, none of which the user has
-- disabled, and there is an id for each, then all are registered, in whatever order they come: as
-- many are counted as listed and none as disabled, the map of present processors holds just these,
-- and each has an id in range. `nr_cpu_ids` is positive and has 32 bits.
pub register_all_complete :
    (env : Env) (l : List ℕ)
    → IsEnv env
    → Fits env l
    → let t = register_all env l (initial env) in
      (t.num_processors ≡ length l)
      × (t.disabled_cpus ≡ 0)
      × ((a : ℕ) → t.phys_cpu_present_map a ≡ listed a l)
      × ((a : ℕ)
          → listed a l ≡ true
          → (c : ℕ) × (c < env.nr_cpu_ids) × (t.cpuid_to_apicid c ≡ some a))
register_all_complete env l w h =
    let follow : CanFollow env [] l = record {
      apart = h.apart;
      new = λ a m. refl;
      boot = ground (arith, h.boot);
      fits = omega (arith, h.fits);
      usable = h.usable;
    } in
    let v : Seen env (past l []) (register_all env l (initial env)) =
      register_all-Seen env l [] (initial env) w (initial-Seen env w) follow in
    (
      v.counted ∙ omega (arith, length-past l []),
      v.none_disabled,
      λ a. v.present a ∙ ground (arith, listed-past a l []),
      λ a m. v.mapped a (ground (arith, listed-past a l [])),
    )
