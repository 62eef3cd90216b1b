-- ===== src/Apic/Detect/Address.antt =====
-- What a detection of the APIC leaves.
use resume_from_edk2_tooling.Base.{
  ℕ, ◌≡◌, refl, subst, ◌⊎◌, inl, inr, Bool, true, false, not, ◌||◌, ◌&&◌, ◌==◌, ltb, leb, arith,
  if◌then◌else◌, Bool-cases, ◌≤◌, sym, ◌∙◌, ◌≢◌, ◌<◌,
}
use resume_from_edk2_tooling.Apic.Device.{ApicDef}
use resume_from_edk2_tooling.Apic.Detect.{
  Vendor, amd, hygon, intel, other, Found, Detection, placed, apic_verify, reenabled,
  apic_force_enable, is_known, activate, detect_init_apic_32, bit_and,
}

-- The processors that may have an APIC: of AMD the family 6 from model 2 on and the families from
-- 15 on, all of Hygon, and of Intel the families 6 and 15, and 5 if it shows its APIC.
pub data Known (x86 x86_model : ℕ) (has_apic : Bool) : Vendor → Type 0 where
  k7 : x86 ≡ 6 → 2 ≤ x86_model → Known x86 x86_model has_apic amd
  k8 : 15 ≤ x86 → Known x86 x86_model has_apic amd
  dhyana : Known x86 x86_model has_apic hygon
  p6 : x86 ≡ 6 → Known x86 x86_model has_apic intel
  netburst : x86 ≡ 15 → Known x86 x86_model has_apic intel
  p5 : x86 ≡ 5 → has_apic ≡ true → Known x86 x86_model has_apic intel

either : (a b : Bool) → a || b ≡ true → (a ≡ true) ⊎ (b ≡ true)
either a b h = ground arith

false-ne-true : ◌≡◌ {A = Bool} false true → ⊥
false-ne-true h = cc

module _ (def : ApicDef) (f : Found) where
  abbrev pub IsKnown : Detection → Type 0
  IsKnown s = Known f.x86 f.x86_model s.has_apic f.vendor

  is_known-Known : (v : Vendor) (b : Bool) → is_known def f v b ≡ true → Known f.x86 f.x86_model b v
  is_known-Known amd b h = elim (either (f.x86 == 6 && ltb 1 f.x86_model) (leb 15 f.x86) h) [
    | inl old ↦ k7 (ground (arith, old)) (ground (arith, old))
    | inr new ↦ k8 (ground (arith, new))
  ]
  is_known-Known hygon b h = dhyana
  is_known-Known intel b h = elim (either (f.x86 == 6 || f.x86 == 15) (f.x86 == 5 && b) h) [
    | inr five ↦ p5 (ground (arith, five)) (ground (arith, five))
    | inl more ↦ elim (either (f.x86 == 6) (f.x86 == 15) more) [
      | inl six ↦ p6 (ground (arith, six))
      | inr fifteen ↦ netburst (ground (arith, fifteen))
    ]
  ]
  is_known-Known other b h = absurd (ground (arith, h))

  Known-is_known : (v : Vendor) (b : Bool) → Known f.x86 f.x86_model b v → is_known def f v b ≡ true
  Known-is_known v b (k7 p q) = ground arith
  Known-is_known v b (k8 p) = ground arith
  Known-is_known v b dhyana = refl
  Known-is_known v b (p6 p) = ground arith
  Known-is_known v b (netburst p) = ground arith
  Known-is_known v b (p5 p q) = ground arith

  -- The address is the MSR's where there is one (from family 6 on) and it is enabled, and else the
  -- default.
  abbrev pub IsPlaced : Detection → Type 0
  IsPlaced t =
      ((6 ≤ f.x86)
        × (bit_and t.base def.apicbase_enable ≢ 0)
        × (t.mp_lapic_addr ≡ bit_and t.base def.apicbase_base))
      ⊎ (((f.x86 < 6) ⊎ (bit_and t.base def.apicbase_enable ≡ 0))
          × (t.mp_lapic_addr ≡ f.default_phys_base))

  -- Why a detection fails, `t` being what it leaves.
  abbrev pub IsRefused : Detection → Detection → Type 0
  IsRefused s t =
      (f.disable_apic ≡ true)
      ⊎ ((¬ IsKnown s)
          ⊎ (((s.has_apic ≡ false) × (f.force_enable_local_apic ≡ false))
              ⊎ (f.cpuid_apic t.base ≡ false)))

  -- Success: it was not disabled, the processor is one of those, and has its APIC or is asked to
  -- switch it on; the APIC is there, looked after, and at its address. Failure: for a reason, and
  -- power management leaves the APIC alone as before.
  abbrev pub IsDetected : Detection → Bool × Detection → Type 0
  IsDetected s (ok, t) =
      ((ok ≡ true)
        × (f.disable_apic ≡ false)
        × IsKnown s
        × ((s.has_apic ≡ true) ⊎ (f.force_enable_local_apic ≡ true))
        × (t.has_apic ≡ true)
        × (f.cpuid_apic t.base ≡ true)
        × (t.active ≡ true)
        × IsPlaced t)
      ⊎ ((ok ≡ false) × (t.active ≡ s.active) × (t.has_apic ≡ s.has_apic) × IsRefused s t)

  placed-Placed :
      (u : Detection) (a : ℕ)
      → a ≡ placed def f u
      → ((6 ≤ f.x86)
          × (bit_and u.base def.apicbase_enable ≢ 0)
          × (a ≡ bit_and u.base def.apicbase_base))
        ⊎ (((f.x86 < 6) ⊎ (bit_and u.base def.apicbase_enable ≡ 0)) × (a ≡ f.default_phys_base))
  placed-Placed u a e = ground arith

  module _ (s : Detection) (on : f.disable_apic ≡ false) (known : IsKnown s) where
    activate-Detected :
        (u : Detection)
        → u.active ≡ s.active
        → u.has_apic ≡ s.has_apic
        → (s.has_apic ≡ true) ⊎ (f.force_enable_local_apic ≡ true)
        → IsDetected s (activate def f (apic_verify def f u))
    unfolding apic_verify
    activate-Detected u same_active same_apic why = elim (Bool-cases (f.cpuid_apic u.base)) [
      | inl there ↦
          let found : Detection = record u {
            has_apic = true;
            mp_lapic_addr = placed def f u;
            active = true;
          } in
          let run : (true, found) ≡ activate def f (apic_verify def f u) = simp there refl in
          subst (IsDetected s) run
            (inl (refl, on, known, why, refl, there, refl, placed-Placed u _ refl))
      | inr absent ↦
          let run : (false, u) ≡ activate def f (apic_verify def f u) = simp absent refl in
          subst (IsDetected s) run (inr (refl, same_active, same_apic, inr (inr (inr absent))))
    ]

    reenabled-same :
        (addr : ℕ)
        → ((reenabled def f addr s).active ≡ s.active)
          × ((reenabled def f addr s).has_apic ≡ s.has_apic)
    reenabled-same addr = (ground arith, ground arith)

    -- The branches behind the check of the processor.
    abbrev behind : Bool → Bool × Detection
    behind present =
        if not present
        then (if not f.force_enable_local_apic
            then (false, s)
            else activate def f (apic_force_enable def f f.default_phys_base s))
        else activate def f (apic_verify def f s)

    behind-Detected : (b : Bool) → s.has_apic ≡ b → IsDetected s (behind b)
    unfolding apic_force_enable
    behind-Detected true e = activate-Detected s refl refl (inl e)
    behind-Detected false e = elim (Bool-cases f.force_enable_local_apic) [
      | inr unasked ↦
          let run : (false, s) ≡ behind false = rw unasked refl in
          subst (IsDetected s) run (inr (refl, refl, refl, inr (inr (inl (e, unasked)))))
      | inl asked ↦
          let u : Detection = reenabled def f f.default_phys_base s in
          let run : activate def f (apic_verify def f u) ≡ behind false = rw (asked, on) refl in
          let same = reenabled-same f.default_phys_base in
          subst (IsDetected s) run (activate-Detected u same.0 same.1 (inr asked))
    ]

  -- A detection succeeds or fails. If it succeeds, the APIC was not disabled, the processor is one
  -- of those that may have an APIC, and has it or is asked to switch it on; cpuid shows the APIC
  -- with the MSR as it now is, the kernel has its feature bit, power management takes care of it,
  -- and its address is that of the MSR, if there is one (from family 6 on) and it is enabled, else
  -- the default. If it fails, the APIC was disabled, or the processor is another, or the APIC is
  -- off and not asked for, or cpuid does not show it; and neither power management nor the
  -- kernel's feature bit has changed.
  pub detect_init_apic_32-Detected : (s : Detection) → IsDetected s (detect_init_apic_32 def f s)
  unfolding detect_init_apic_32
  detect_init_apic_32-Detected s = elim (Bool-cases f.disable_apic) [
    | inl off ↦
        let run : (false, s) ≡ detect_init_apic_32 def f s = rw off refl in
        subst (IsDetected s) run (inr (refl, refl, refl, inl off))
    | inr on ↦ elim (Bool-cases (is_known def f f.vendor s.has_apic)) [
      | inr unknown ↦
          let run : (false, s) ≡ detect_init_apic_32 def f s = rw (on, unknown) refl in
          let stranger : ¬ IsKnown s =
            λ k. false-ne-true (sym unknown ∙ Known-is_known f.vendor s.has_apic k) in
          subst (IsDetected s) run (inr (refl, refl, refl, inr (inl stranger)))
      | inl known ↦
          let k = is_known-Known f.vendor s.has_apic known in
          let run : behind s on k s.has_apic ≡ detect_init_apic_32 def f s = rw (on, known) refl in
          subst (IsDetected s) run (behind-Detected s on k s.has_apic refl)
    ]
  ]
