-- ===== src/Apic/X2apic/Modes.antt =====
-- The states of the x2APIC switch: what stays true, and which MSR values follow one another.
use resume_from_edk2_tooling.Base.{
  ◌&&◌, ltb, ◌^◌, ◌≡◌, ◌≢◌, ◌↔◌, refl, arith, Bool, true, false, List, [], ◌∷◌, Bool-cases, inl,
  inr, not, ◌||◌, ◌⊎◌, leb, ltb, ◌∙◌, sym, subst,
}
use resume_from_edk2_tooling.Apic.X2apic.{
  Msr, State, off, on, disabled, is_on, is_off, is_disabled, register_lapic_address, Machine, ok,
  hw_disable, hw_enable, apic_is_x2apic_enabled, x2apic_enabled, setup_nox2apic, x2apic_setup,
  x2apic_disable, x2apic_enable, try_to_enable_x2apic, check_x2apic,
}

-- The transitions of the APIC's mode that the processor allows. From x2APIC mode the way to
-- xAPIC mode leads through the disabled state.
pub data Moves : Msr → Msr → Type 0 where
  to_x2apic :
      {a b : Msr}
      → a.xapic_enable ≡ true
      → a.x2apic_enable ≡ false
      → b.xapic_enable ≡ true
      → b.x2apic_enable ≡ true
      → Moves a b
  to_xapic :
      {a b : Msr}
      → a.xapic_enable ≡ false
      → a.x2apic_enable ≡ false
      → b.xapic_enable ≡ true
      → b.x2apic_enable ≡ false
      → Moves a b
  to_disabled :
      {a b : Msr}
      → a.xapic_enable ≡ true
      → b.xapic_enable ≡ false
      → b.x2apic_enable ≡ false
      → Moves a b

abbrev pub IsLegal : Msr → List Msr → Type 0
IsLegal m [] = Unit
IsLegal m (a ∷ rest) = Moves a m × IsLegal a rest

-- The switch says "on" exactly where the mode flag is set, and only if the hardware is in x2APIC
-- mode; the APIC is enabled, and the MSR has only ever made allowed transitions.
pub record IsSound (s : Machine) : Type 0 where
  pub flag : (s.x2apic_mode ≡ true) ↔ (s.x2apic_state ≡ on)
  pub hardware : s.x2apic_state ≡ on → s.msr.x2apic_enable ≡ true
  pub enabled : s.msr.xapic_enable ≡ true
  pub legal : IsLegal s.msr s.before

-- What the two hardware switches keep of it.
record KeepsLegal (s t : Machine) : Type 0 where
  enabled : t.msr.xapic_enable ≡ true
  legal : IsLegal t.msr t.before
  mode : t.x2apic_mode ≡ s.x2apic_mode
  state : t.x2apic_state ≡ s.x2apic_state

module _ (s : Machine) (e : s.msr.xapic_enable ≡ true) (l : IsLegal s.msr s.before) where
  hw_disable-KeepsLegal : KeepsLegal s (hw_disable s)
  unfolding hw_disable
  hw_disable-KeepsLegal = elim (Bool-cases s.has_apic) [
    | inr absent ↦ simp absent (record { enabled = e; legal = l; mode = refl; state = refl })
    | inl there ↦ elim (Bool-cases s.msr.x2apic_enable) [
      | inr clear ↦
          simp (there, clear) (record { enabled = e; legal = l; mode = refl; state = refl })
      | inl set ↦
          simp (there, set)
            (record {
              enabled = e;
              legal = (to_xapic refl refl e refl, (to_disabled e refl refl, l));
              mode = refl;
              state = refl;
            })
    ]
  ]

  hw_enable-KeepsLegal : KeepsLegal s (hw_enable s) × ((hw_enable s).msr.x2apic_enable ≡ true)
  unfolding hw_enable
  hw_enable-KeepsLegal = elim (Bool-cases s.msr.x2apic_enable) [
    | inl set ↦ simp set (record { enabled = e; legal = l; mode = refl; state = refl }, refl)
    | inr clear ↦ simp clear (
      record { enabled = e; legal = (to_x2apic e clear e refl, l); mode = refl; state = refl },
      refl,
    )
  ]

-- Off and disabled states are sound whatever the hardware mode is.
pub not_on :
    (t : Machine)
    → t.msr.xapic_enable ≡ true
    → IsLegal t.msr t.before
    → t.x2apic_mode ≡ false
    → t.x2apic_state ≢ on
    → IsSound t
not_on t e l m st = record {
  flag = (λ h. absurd (ground (arith, m)), λ h. absurd (st h));
  hardware = λ h. absurd (st h);
  enabled = e;
  legal = l;
}

-- The option that forbids the x2APIC leaves a sound state sound.
pub setup_nox2apic-IsSound :
    (readable : Bool) (s : Machine) → IsSound s → IsSound (setup_nox2apic readable s)
unfolding setup_nox2apic
setup_nox2apic-IsSound readable s v = elim (Bool-cases (x2apic_enabled readable s)) [
  | inr no_bit ↦ simp no_bit (not_on _ v.enabled v.legal refl (λ h. cc))
  | inl bit ↦ elim (Bool-cases (leb 255 s.apic_id && ltb s.apic_id (2 ^ 31))) [
    | inl big ↦ simp (bit, big) v
    | inr fits ↦
        let k = hw_disable-KeepsLegal s v.enabled v.legal in
        simp (bit, fits) (not_on _ k.enabled k.legal refl (λ h. cc))
  ]
]

is_on-ne : (st : State) → st ≢ on → is_on st ≡ false
is_on-ne off ne = refl
is_on-ne on ne = absurd (ne refl)
is_on-ne disabled ne = refl

enabled_bit :
    (readable : Bool) (s : Machine) → x2apic_enabled readable s ≡ true → s.msr.x2apic_enable ≡ true
unfolding x2apic_enabled apic_is_x2apic_enabled
enabled_bit readable s h = ground arith

State-cases : (st : State) → (st ≡ on) ⊎ (st ≢ on)
State-cases off = inr (λ h. cc)
State-cases on = inl refl
State-cases disabled = inr (λ h. cc)

-- A machine that says "on" is sound after the hardware has been switched.
hw_enable-IsSound :
    (s : Machine)
    → s.msr.xapic_enable ≡ true
    → IsLegal s.msr s.before
    → s.x2apic_mode ≡ true
    → s.x2apic_state ≡ on
    → IsSound (hw_enable s)
hw_enable-IsSound s e l m st =
    let (k, set) = hw_enable-KeepsLegal s e l in
    record {
      flag = (λ _. k.state ∙ st, λ _. k.mode ∙ m);
      hardware = λ _. set;
      enabled = k.enabled;
      legal = k.legal;
    }

mode_off : (s : Machine) → IsSound s → s.x2apic_state ≢ on → s.x2apic_mode ≡ false
mode_off s v ne = elim (Bool-cases s.x2apic_mode) [
  | inl set ↦ absurd (ne (v.flag.0 set))
  | inr clear ↦ clear
]

-- A processor that comes up and is switched by `x2apic_setup` leaves a sound state sound.
pub x2apic_setup-IsSound : (s : Machine) → IsSound s → IsSound (x2apic_setup s)
unfolding x2apic_setup
x2apic_setup-IsSound s v = elim (State-cases s.x2apic_state) [
  | inl st ↦ simp st (hw_enable-IsSound s v.enabled v.legal (v.flag.1 st) st)
  | inr ne ↦
      let k = hw_disable-KeepsLegal s v.enabled v.legal in
      let no : is_on s.x2apic_state ≡ false = is_on-ne s.x2apic_state ne in
      simp no (not_on _ k.enabled k.legal (k.mode ∙ mode_off s v ne) (λ h. ne (sym k.state ∙ h)))
]

x2apic_enable-IsSound : (s : Machine) → IsSound s → IsSound (x2apic_enable s)
unfolding x2apic_enable
x2apic_enable-IsSound s v = elim (Bool-cases (is_off s.x2apic_state)) [
  | inl st ↦ simp st (hw_enable-IsSound _ v.enabled v.legal refl refl)
  | inr other ↦ simp other v
]

x2apic_disable-IsSound :
    (s : Machine) {t : Machine} → IsSound s → x2apic_disable s ≡ ok t → IsSound t
unfolding x2apic_disable register_lapic_address
x2apic_disable-IsSound s {t} v h = elim (Bool-cases (is_on s.x2apic_state)) [
  | inr isnt ↦
      let same : record s { x2apic_mode = false; x2apic_state = disabled } ≡ t =
        ground (arith, isnt) in
      subst IsSound same (not_on _ v.enabled v.legal refl (λ e. cc))
  | inl yes_on ↦ elim (Bool-cases (leb 255 s.apic_id)) [
    | inl big ↦ absurd (ground (arith, yes_on, big))
    | inr fits ↦
        let t0 = record s { x2apic_mode = false; x2apic_state = disabled } in
        let k = hw_disable-KeepsLegal t0 v.enabled v.legal in
        let same : register_lapic_address s.mp_lapic_addr (hw_disable t0) ≡ t =
          ground (arith, yes_on, fits) in
        subst IsSound same (not_on _ k.enabled k.legal k.mode (λ e. ground (arith, k.state, e)))
  ]
]

-- From a sound state, trying to enable the x2APIC ends, unless it panics, in a sound state: the
-- mode flag is set exactly in the state "on", in which the hardware is in x2APIC mode, the APIC is
-- enabled, and every step of the MSR was one that the processor allows.
pub try_to_enable_x2apic-IsSound :
    (remapped available : Bool) (s : Machine) {t : Machine}
    → IsSound s
    → try_to_enable_x2apic remapped available s ≡ ok t
    → IsSound t
unfolding try_to_enable_x2apic
try_to_enable_x2apic-IsSound remapped available s {t} v h =
    elim (Bool-cases (is_disabled s.x2apic_state)) [
      | inl dis ↦ let same : s ≡ t = ground (arith, dis) in subst IsSound same v
      | inr free ↦ elim (Bool-cases remapped) [
        | inl remap ↦
            let same : x2apic_enable s ≡ t = ground (arith, free, remap) in
            subst IsSound same (x2apic_enable-IsSound s v)
        | inr plain ↦ elim (Bool-cases (ltb 255 s.max_physical_apicid || not available)) [
          | inl cannot ↦ x2apic_disable-IsSound s v (ground (arith, free, plain, cannot))
          | inr can ↦
              let same : x2apic_enable (record s { x2apic_phys = true }) ≡ t =
                ground (arith, free, plain, can) in
              subst IsSound same (
                x2apic_enable-IsSound _ (record {
                  flag = v.flag;
                  hardware = v.hardware;
                  enabled = v.enabled;
                  legal = v.legal;
                }))
        ]
      ]
    ]

-- From a sound state that is not "on", looking at what the firmware has left ends in a sound state.
pub check_x2apic-IsSound :
    (readable : Bool) (s : Machine)
    → IsSound s
    → s.x2apic_state ≢ on
    → IsSound (check_x2apic readable s)
unfolding check_x2apic
check_x2apic-IsSound readable s v start =
    let clear : s.x2apic_mode ≡ false = mode_off s v start in
    elim (Bool-cases (x2apic_enabled readable s)) [
      | inl bit ↦ simp bit (record {
        flag = (λ _. refl, λ _. refl);
        hardware = λ _. enabled_bit readable s bit;
        enabled = v.enabled;
        legal = v.legal;
      })
      | inr no_bit ↦ elim (Bool-cases s.has_x2apic) [
        | inl has ↦ simp (no_bit, has) v
        | inr none_there ↦ simp (no_bit, none_there) (not_on _ v.enabled v.legal clear (λ h. cc))
      ]
    ]
