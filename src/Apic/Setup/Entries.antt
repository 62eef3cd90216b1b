-- ===== src/Apic/Setup/Entries.antt =====
-- What `setup_local_APIC` leaves in the two entries of the local interrupt pins.
use resume_from_edk2_tooling.Base.{
  ℕ, ◌≡◌, sym, ap, ◌∙◌, ◌==◌, Bool, false, bit_and, bit_or, if◌then◌else◌, arith,
}
use resume_from_edk2_tooling.Apic.Device.{
  Device, ApicDef, Holds, Fixed, lvr, not32, spiv, lvt0, lvt1, only, lapic_is_integrated,
}
use resume_from_edk2_tooling.Apic.Mode.{WireDef, Extnmi}
use resume_from_edk2_tooling.Apic.Setup.{
  Hooks, Options, ready, is_all, lint0, lint1, set_lints, setup_local_apic, before_clear, enable,
}
use resume_from_edk2_tooling.Apic.Pending.{apic_pending_intr_clear}

module _ (d : Device) (def : ApicDef) (wire : WireDef) (hooks : Hooks d) where
  lint0-secondary :
      (o : Options) (old : ℕ)
      → (o.cpu == 0) ≡ false
      → lint0 d def wire hooks o old ≡ bit_or wire.dm_extint def.lvt_masked
  lint0-secondary o old second = ground (arith, second)

  -- The value for the second pin on a CPU other than the first.
  abbrev pub lint1_of : Bool → Extnmi → ℕ
  lint1_of integrated extnmi =
      let value = if is_all extnmi then wire.dm_nmi else bit_or wire.dm_nmi def.lvt_masked in
      if integrated then value else bit_or value wire.lvt_level_trigger

  lint1-secondary :
      (o : Options) (integrated : Bool)
      → (o.cpu == 0) ≡ false
      → lint1 d def wire hooks o integrated ≡ lint1_of integrated o.apic_extnmi
  lint1-secondary o integrated second = ground (arith, second)

  -- The last thing that a run on such a CPU does.
  set_lints_last :
      (o : Options) (s t : d.State)
      → (o.cpu == 0) ≡ false
      → setup_local_apic d def wire hooks o s ≡ ready t
      → (u : d.State) × (t ≡ set_lints d def wire hooks o u)
  unfolding setup_local_apic only
  set_lints_last o s t second done =
      let off : d.State = d.write spiv (bit_and (d.read spiv s) (not32 def.spiv_apic_enabled)) s in
      let cleared : d.State =
        apic_pending_intr_clear d hooks.ack_apic_irq (before_clear d def wire hooks off) in
      (hooks.perf_events_lapic_init (enable d def wire hooks cleared), ground (arith, second, done))

  -- On a CPU other than the first, where `setup_local_APIC` completes, both pins are left masked, the second one unless NMIs are to
  -- be delivered to all CPUs: LVT0 is ExtINT and masked, LVT1 is NMI with or without the mask, and
  -- level-triggered if the APIC is not integrated. LVT0 and LVT1 hold what is written, and the
  -- version register is read only.
  pub setup_local_apic-secondary :
      (o : Options) (s t : d.State)
      → Holds d lvt0
      → Holds d lvt1
      → Fixed d lvr
      → (o.cpu == 0) ≡ false
      → setup_local_apic d def wire hooks o s ≡ ready t
      → (d.read lvt0 t ≡ bit_or wire.dm_extint def.lvt_masked)
        × (d.read lvt1 t ≡ lint1_of (lapic_is_integrated d def t) o.apic_extnmi)
  setup_local_apic-secondary o s t h0 h1 fixed second done =
      let last = set_lints_last o s t second done in
      let u : d.State = last.0 in
      let v : ℕ = lint0 d def wire hooks o (d.read lvt0 u) in
      let x : d.State = d.write lvt0 v u in
      let w : ℕ = lint1 d def wire hooks o (lapic_is_integrated d def x) in
      let integrated : lapic_is_integrated d def t ≡ lapic_is_integrated d def x =
        ap (λ n. def.is_integrated (def.version_of n)) (ap (d.read lvr) last.1 ∙ fixed lvt1 w x) in
      (
        ap (d.read lvt0) last.1
            ∙ h0 lvt1 w x
            ∙ h0 lvt0 v u
            ∙ lint0-secondary o (d.read lvt0 u) second,
        ap (d.read lvt1) last.1
            ∙ h1 lvt1 w x
            ∙ lint1-secondary o (lapic_is_integrated d def x) second
            ∙ ap (λ b. lint1_of b o.apic_extnmi) (sym integrated),
      )
