-- ===== src/Apic/Bringup/Active.antt =====
-- What bringing a processor's APIC up leaves, and that it can be suspended from then on.
use resume_from_edk2_tooling.Base.{
  ℕ, bit_or, ◌≡◌, refl, sym, ap, ◌∙◌, subst, ◌≢◌, inl, inr, Bool, true, false, not, ◌&&◌, Option,
  none, some, arith, ◌==◌, if◌then◌else◌, Bool-cases,
}
use resume_from_edk2_tooling.Apic.Device.{
  Device, ApicDef, Reg, Holds, Fixed, same, lvr, lvt0, lvt1, lvterr, esr, read-only, if_same,
  lapic_is_integrated,
}
use resume_from_edk2_tooling.Apic.Mode.{
  WireDef, IntrMode, pic, virtual_wire, virtual_wire_no_config, symmetric_io,
  symmetric_io_no_routing, apic_intr_mode_init,
}
use resume_from_edk2_tooling.Apic.Power.{Boot, lapic_suspend, lapic_resume}
use resume_from_edk2_tooling.Apic.Power.Restore.{HoldsAll, Agrees, lapic_resume-lapic_suspend}
use resume_from_edk2_tooling.Apic.Setup.{
  Hooks, Options, Outcome, ioapic_disabled, bug, ready, lapic_setup_esr, setup_local_apic,
}
use resume_from_edk2_tooling.Apic.Setup.Entries.{setup_local_apic-secondary, lint1_of}
use resume_from_edk2_tooling.Apic.Bringup.{
  Board, Up, after_setup, then_do, finish_bsp, end_local_apic_setup, apic_ap_setup,
  apic_bsp_up_setup, bsp_setup, make_calls,
}

module _ (d : Device) (def : ApicDef) (wire : WireDef) (hooks : Hooks d) (board : Board d) where
  lapic_setup_esr-kept :
      (r : Reg) (s : d.State)
      → Holds d r
      → same r esr ≡ false
      → same r lvterr ≡ false
      → d.read r (lapic_setup_esr d def wire hooks s) ≡ d.read r s
  unfolding lapic_setup_esr
  lapic_setup_esr-kept r s h ne_esr ne_err = elim (Bool-cases (lapic_is_integrated d def s)) [
    | inr separate ↦ simp separate refl
    | inl there ↦ elim (Bool-cases hooks.disable_esr) [
      | inl off ↦ simp (there, off) refl
      | inr on ↦ simp (there, on, read-only, h, ne_esr, ne_err, if_same) refl
    ]
  ]

  lapic_setup_esr-vector :
      (s : d.State)
      → Holds d lvterr
      → lapic_is_integrated d def s && not hooks.disable_esr ≡ true
      → d.read lvterr (lapic_setup_esr d def wire hooks s) ≡ def.error_apic_vector
  unfolding lapic_setup_esr
  lapic_setup_esr-vector s h on =
      let there : lapic_is_integrated d def s ≡ true = ground (arith, on) in
      let used : hooks.disable_esr ≡ false = ground (arith, on) in
      simp (there, used, read-only, h, if_same) refl

  lapic_setup_esr-Fixed :
      (s : d.State) → Fixed d lvr → d.read lvr (lapic_setup_esr d def wire hooks s) ≡ d.read lvr s
  unfolding lapic_setup_esr
  lapic_setup_esr-Fixed s h = elim (Bool-cases (lapic_is_integrated d def s)) [
    | inr separate ↦ simp separate refl
    | inl there ↦ elim (Bool-cases hooks.disable_esr) [
      | inl off ↦ simp (there, off) refl
      | inr on ↦ simp (there, on, read-only, h, if_same) refl
    ]
  ]

  -- Where the first half completes, the second half has the last word.
  ready-ended :
      (x : Outcome d.State) (u v : Up d.State)
      → ((s : d.State) → x ≢ ioapic_disabled s)
      → then_do d def wire hooks board
          (after_setup d def wire hooks board x u)
          (end_local_apic_setup d def wire hooks board)
        ≡ some v
      → (t : d.State) × (x ≡ ready t)
        × (end_local_apic_setup d def wire hooks board (record u { apic = t }) ≡ v)
  ready-ended (ioapic_disabled s) u v n e = absurd (n s refl)
  ready-ended bug u v n e = absurd (ground (arith, e))
  ready-ended (ready t) u v n e = (t, refl, ground (arith, e))

  setup_local_apic-used :
      (o : Options) (s t : d.State)
      → o.disable_apic ≡ false
      → setup_local_apic d def wire hooks o s ≢ ioapic_disabled t
  unfolding setup_local_apic
  setup_local_apic-used o s t used h = ground (arith, used, h)

  -- On a CPU other than the first, with the APIC in use, where the set-up completes and leaves an
  -- integrated APIC with a usable ESR: LVT0 is ExtINT and masked, LVT1 is NMI and masked unless
  -- NMIs are to be delivered to all CPUs, LVTERR has the error vector, and the power management
  -- takes care of the APIC. LVT0, LVT1 and LVTERR hold what is written, the version is read only.
  pub apic_ap_setup-secondary :
      (o : Options) (u v : Up d.State)
      → Holds d lvt0
      → Holds d lvt1
      → Holds d lvterr
      → Fixed d lvr
      → (o.cpu == 0) ≡ false
      → o.disable_apic ≡ false
      → lapic_is_integrated d def v.apic && not hooks.disable_esr ≡ true
      → apic_ap_setup d def wire hooks board o u ≡ some v
      → (d.read lvt0 v.apic ≡ bit_or wire.dm_extint def.lvt_masked)
        × (d.read lvt1 v.apic ≡ lint1_of d def wire hooks true o.apic_extnmi)
        × (d.read lvterr v.apic ≡ def.error_apic_vector)
        × (v.pm.active ≡ true)
  unfolding apic_ap_setup end_local_apic_setup
  apic_ap_setup-secondary o u v h0 h1 herr fixed second used on done =
      let k =
        ready-ended (setup_local_apic d def wire hooks o u.apic) u v
          (λ s. setup_local_apic-used o u.apic s used) done in
      let t : d.State = k.0 in
      let wired = setup_local_apic-secondary d def wire hooks o u.apic t h0 h1 fixed second (k.1) in
      let same_lvr : d.read lvr (lapic_setup_esr d def wire hooks t) ≡ d.read lvr t =
        lapic_setup_esr-Fixed t fixed in
      let ended : (lapic_setup_esr d def wire hooks t) ≡ v.apic = ap (λ x. x.apic) (k.2) in
      let there : lapic_is_integrated d def v.apic ≡ true = ground (arith, on) in
      let before : lapic_is_integrated d def t ≡ true =
        ap (λ n. def.is_integrated (def.version_of n)) (sym same_lvr ∙ ap (d.read lvr) ended)
        ∙ there in
      (
        ap (d.read lvt0) (sym ended) ∙ lapic_setup_esr-kept lvt0 t h0 refl refl ∙ wired.0,
        ap (d.read lvt1) (sym ended)
            ∙ lapic_setup_esr-kept lvt1 t h1 refl refl
            ∙ wired.1
            ∙ ap (λ b. lint1_of d def wire hooks b o.apic_extnmi) before,
        ap (d.read lvterr) (sym ended)
            ∙ lapic_setup_esr-vector t herr (rw before (ground (arith, on))),
        ap (λ x. x.pm.active) (sym (k.2)),
      )

  abbrev started : ℕ → Bool → Up d.State → Up d.State
  started n upmode u = if upmode then apic_bsp_up_setup d def wire hooks board n u else u

  finished :
      (x : Outcome d.State) (u v : Up d.State)
      → then_do d def wire hooks board
          (after_setup d def wire hooks board x u)
          (finish_bsp d def wire hooks board)
        ≡ some v
      → v.pm.active ≡ true
  unfolding end_local_apic_setup
  finished (ioapic_disabled s) u v e =
      let same : finish_bsp d def wire hooks board (record u { apic = s; ioapic_disabled = true })
          ≡ v =
        ground (arith, e) in
      subst (λ z. z.pm.active ≡ true) same refl
  finished bug u v e = absurd (ground (arith, e))
  finished (ready s) u v e =
      let same : finish_bsp d def wire hooks board (record u { apic = s }) ≡ v =
        ground (arith, e) in
      subst (λ z. z.pm.active ≡ true) same refl

  bsp_setup-active :
      (o : Options) (n : ℕ) (upmode : Bool) (u v : Up d.State)
      → bsp_setup d def wire hooks board o n upmode u ≡ some v
      → v.pm.active ≡ true
  unfolding bsp_setup
  bsp_setup-active o n upmode u v done =
      finished (setup_local_apic d def wire hooks o (started n upmode u).apic) (started n upmode u)
        v done

  -- A call that is the last one.
  alone :
      (x : Option (Up d.State)) (v : Up d.State)
      → elim x as (λ _. Option (Up d.State)) [ none ↦ none | some w ↦ some w ] ≡ some v
      → x ≡ some v
  alone none v e = e
  alone (some w) v e = e

  -- The calls of every mode but the PIC's end with `apic_bsp_setup`.
  make_calls-active :
      (o : Options) (n : ℕ) (mode : IntrMode) (up_late_init : Bool) (u v : Up d.State)
      → mode ≢ pic
      → make_calls d def wire hooks board o n (apic_intr_mode_init up_late_init mode) u ≡ some v
      → v.pm.active ≡ true
  unfolding make_calls apic_intr_mode_init
  make_calls-active o n pic b u v ne e = absurd (ne refl)
  make_calls-active o n virtual_wire b u v ne e = bsp_setup-active o n b _ v (alone _ v e)
  make_calls-active o n virtual_wire_no_config b u v ne e =
      bsp_setup-active o n true _ v (alone _ v e)
  make_calls-active o n symmetric_io b u v ne e = bsp_setup-active o n b _ v (alone _ v e)
  make_calls-active o n symmetric_io_no_routing b u v ne e =
      bsp_setup-active o n b _ v (alone _ v e)

  -- If the calls of a mode other than the PIC's complete, power management has become active: a
  -- suspend then saves the registers, and a resume, from any state of the APIC in which the version
  -- reads the same, brings back what the registers held when the calls were done, on an APIC
  -- whose registers hold what is written to them.
  pub brought_up-Restored :
      (h : HoldsAll d) (o : Options) (n : ℕ) (mode : IntrMode) (up_late_init : Bool)
      (u v : Up d.State) (boot : Boot) (lost : d.State) (base : ℕ)
      → mode ≢ pic
      → make_calls d def wire hooks board o n (apic_intr_mode_init up_late_init mode) u ≡ some v
      → d.read lvr lost ≡ d.read lvr v.apic
      → Agrees d def v.apic
          (lapic_resume d def boot (lapic_suspend d def boot v.pm v.apic).0 base lost).1
  brought_up-Restored h o n mode up_late_init u v boot lost base ne e same_lvr =
      lapic_resume-lapic_suspend d def h boot v.pm v.apic lost base
        (make_calls-active o n mode up_late_init u v ne e) same_lvr
