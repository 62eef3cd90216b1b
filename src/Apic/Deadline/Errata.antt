-- ===== src/Apic/Deadline/Errata.antt =====
-- Which processors lose the deadline timer: the table read as a set of demands on the microcode.
use resume_from_edk2_tooling.Base.{
  ℕ, ◌%◌, ◌^◌, ◌≡◌, refl, sym, ap, ap₂, ◌∙◌, inl, inr, Bool, true, false, not, ◌&&◌, ◌||◌, Option,
  none, some, List, [], ◌∷◌, arith, leb, ◌==◌, if◌then◌else◌, Bool-cases,
}
use resume_from_edk2_tooling.Apic.Deadline.{
  Model, X86CpuId, BootCpu, deadline_match, checked, apic_validate_deadline_timer, haswell_x,
  broadwell_x, broadwell_d, skylake_x, haswell, haswell_l, haswell_g, broadwell, broadwell_g,
  skylake_l, skylake, kabylake_l, kabylake,
}

abbrev pub model_number : Model → ℕ
model_number haswell_x = 0
model_number broadwell_x = 1
model_number broadwell_d = 2
model_number skylake_x = 3
model_number haswell = 4
model_number haswell_l = 5
model_number haswell_g = 6
model_number broadwell = 7
model_number broadwell_g = 8
model_number skylake_l = 9
model_number skylake = 10
model_number kabylake_l = 11
model_number kabylake = 12

abbrev pub in_range : Option (ℕ × ℕ) → ℕ → Bool
in_range none stepping = true
in_range (some (first, last)) stepping = leb first stepping && leb stepping last

-- Does an entry mean a processor of this model and stepping?
abbrev pub matches : Model → ℕ → X86CpuId → Bool
matches m stepping e = (model_number m == model_number e.model) && in_range e.steppings stepping

-- The first entry that does.
unfoldable pub first_match : Model → ℕ → List X86CpuId → Option X86CpuId
first_match m stepping [] = none
first_match m stepping (e ∷ rest) =
    let later = first_match m stepping rest in if matches m stepping e then some e else later

-- Is the microcode new enough for all entries that do?
unfoldable pub is_current : Model → ℕ → (microcode : ℕ) → List X86CpuId → Bool
is_current m stepping microcode [] = true
is_current m stepping microcode (e ∷ rest) =
    (not (matches m stepping e) || leb e.driver_data microcode)
    && is_current m stepping microcode rest

-- What the first match decides, all matches decide.
abbrev pub current_for : Option X86CpuId → ℕ → Bool
current_for none microcode = true
current_for (some e) microcode = leb (e.driver_data % 2 ^ 32) microcode

first_match-is_current :
    (m : Model) (stepping microcode : ℕ)
    → current_for (first_match m stepping deadline_match) microcode
      ≡ is_current m stepping microcode deadline_match
unfolding first_match is_current
first_match-is_current m stepping microcode = ground arith

checked-current :
    (o : Option X86CpuId) (c : BootCpu)
    → c.has_deadline ≡ true
    → ((checked o c).0 ≡ current_for o c.microcode)
      × ((checked o c).1.has_deadline ≡ (checked o c).0)
checked-current none c h = (refl, h)
checked-current (some e) c h = (ground arith, ground (arith, h))

-- If the kernel's `x86_match_cpu` finds the first entry for the processor: the deadline timer is
-- said to be there, and its capability is kept, just if it was there and there is a hypervisor or
-- the microcode is new enough for every entry of the table that means this model and stepping.
pub apic_validate_deadline_timer-Required :
    (x86_match_cpu : List X86CpuId → Option X86CpuId) (m : Model) (stepping : ℕ) (c : BootCpu)
    → x86_match_cpu deadline_match ≡ first_match m stepping deadline_match
    → let r = apic_validate_deadline_timer x86_match_cpu c in
      (r.0 ≡ (
        c.has_deadline && (c.has_hypervisor || is_current m stepping c.microcode deadline_match)))
      × (r.1.has_deadline ≡ r.0)
unfolding apic_validate_deadline_timer
apic_validate_deadline_timer-Required x86_match_cpu m stepping c first =
    let rest : Bool = is_current m stepping c.microcode deadline_match in
    elim (Bool-cases c.has_deadline) [
      | inr absent ↦
          let run : apic_validate_deadline_timer x86_match_cpu c ≡ (false, c) = simp absent refl in
          (
            ap (λ z. z.0) run ∙ sym (ap (λ a. a && (c.has_hypervisor || rest)) absent),
            ap (λ z. z.1.has_deadline) run ∙ absent ∙ sym (ap (λ z. z.0) run),
          )
      | inl there ↦ elim (Bool-cases c.has_hypervisor) [
        | inl guest ↦
            let run : apic_validate_deadline_timer x86_match_cpu c ≡ (true, c) =
              simp (there, guest) refl in
            (
              ap (λ z. z.0) run ∙ sym (ap₂ (λ a g. a && (g || rest)) there guest),
              ap (λ z. z.1.has_deadline) run ∙ there ∙ sym (ap (λ z. z.0) run),
            )
        | inr bare ↦
            let run : apic_validate_deadline_timer x86_match_cpu c
                ≡ checked (x86_match_cpu deadline_match) c =
              simp (there, bare) refl in
            let k = checked-current (x86_match_cpu deadline_match) c there in
            (
              ap (λ z. z.0) run
                  ∙ k.0
                  ∙ ap (λ o. current_for o c.microcode) first
                  ∙ first_match-is_current m stepping c.microcode
                  ∙ sym (ap₂ (λ a g. a && (g || rest)) there bare),
              ap (λ z. z.1.has_deadline) run ∙ k.1 ∙ sym (ap (λ z. z.0) run),
            )
      ]
    ]
