-- ===== src/Apic/Lvt/Silent.antt =====
-- An APIC that has been shut down stays silent: which statements leave every entry of the local
-- vector table masked and the APIC disabled.
use resume_from_edk2_tooling.Base.{
  ℕ, ◌^◌, ◌<◌, ◌≤◌, ◌≡◌, ◌≢◌, refl, sym, ap, ◌∙◌, Bool, true, false, not, ◌||◌, bit_and, bit_or,
  leb, arith, if◌then◌else◌, Bool-cases, inl, inr,
}
use resume_from_edk2_tooling.Base.Bits.{bit_or-absorb, bit_and_cleared, bit_and_self}
use resume_from_edk2_tooling.Apic.Device.{
  Reg, Device, ApicDef, Holds, Fixed, read-only, if_same, same, mask, lapic_get_maxlvt, lvr, spiv,
  esr, tmict, lvtt, lvtthmr, lvtpc, lvt0, lvt1, lvterr, lvtcmci,
}
use resume_from_edk2_tooling.Apic.Lvt.{
  clear_masks, clear_state, clear_local_apic, apic_soft_disable, disable_local_apic, lapic_shutdown,
}
use resume_from_edk2_tooling.Apic.Lvt.Masked.{HoldsLvt, IsMasked, lapic_shutdown-IsMasked}
use resume_from_edk2_tooling.Apic.Kept.{Keeps, AllKeep, end, ◌▸◌, run-Keeps, only-Keeps, if_kept}

-- The entries of a table whose last one has the number `maxlvt`.
abbrev pub has_entry : (maxlvt : ℕ) → Reg → Bool
has_entry maxlvt lvtt = true
has_entry maxlvt lvt0 = true
has_entry maxlvt lvt1 = true
has_entry maxlvt lvterr = leb 3 maxlvt
has_entry maxlvt lvtpc = leb 4 maxlvt
has_entry maxlvt lvtthmr = leb 5 maxlvt
has_entry maxlvt lvtcmci = leb 6 maxlvt
has_entry maxlvt r = false

-- No register outside the table is one of its entries.
entry_apart :
    (n : ℕ) (r : Reg)
    → has_entry n r ≡ true
    → (same r spiv ≡ false) × (same r esr ≡ false) × (same r tmict ≡ false)
entry_apart n lvtt h = (refl, refl, refl)
entry_apart n lvt0 h = (refl, refl, refl)
entry_apart n lvt1 h = (refl, refl, refl)
entry_apart n lvterr h = (refl, refl, refl)
entry_apart n lvtpc h = (refl, refl, refl)
entry_apart n lvtthmr h = (refl, refl, refl)
entry_apart n lvtcmci h = (refl, refl, refl)
entry_apart n r h = absurd (ground (arith, h))

leb→le : (a b : ℕ) → leb a b ≡ true → a ≤ b
leb→le a b h = ground arith

module _ (d : Device) (def : ApicDef) where
  -- The entries and the spurious-interrupt register hold what is written, the version is read only,
  -- the mask is not 0 and the enable bit fits in a register.
  pub record Hardware : Type 0 where
    pub entries : (n : ℕ) (r : Reg) → has_entry n r ≡ true → Holds d r
    pub spurious : Holds d spiv
    pub version : Fixed d lvr
    pub mask_nonzero : def.lvt_masked ≢ 0
    pub enable_fits : def.spiv_apic_enabled < 2 ^ 32

  -- Every entry of the table is masked, and the APIC is disabled.
  pub record IsSilent (maxlvt : ℕ) (t : d.State) : Type 0 where
    pub same_table : lapic_get_maxlvt d def t ≡ maxlvt
    pub masked : (r : Reg) → has_entry maxlvt r ≡ true → bit_and (d.read r t) def.lvt_masked ≢ 0
    pub disabled : bit_and (d.read spiv t) def.spiv_apic_enabled ≡ 0

  maxlvt_at : ℕ → ℕ
  maxlvt_at v = if def.is_integrated (def.version_of v) then def.maxlvt_of v else 2

  module _ (hw : Hardware) where
    pub same_table_of :
        (s t : d.State)
        → d.read lvr t ≡ d.read lvr s
        → lapic_get_maxlvt d def t ≡ lapic_get_maxlvt d def s
    unfolding maxlvt_at
    same_table_of s t e = ap maxlvt_at e

    HoldsLvt_of : HoldsLvt d
    HoldsLvt_of = record {
      timer = hw.entries 6 lvtt refl;
      lint0 = hw.entries 6 lvt0 refl;
      lint1 = hw.entries 6 lvt1 refl;
      error = hw.entries 6 lvterr refl;
      counter = hw.entries 6 lvtpc refl;
      thermal = hw.entries 6 lvtthmr refl;
      cmci = hw.entries 6 lvtcmci refl;
      spurious = hw.spurious;
    }

    masked_nonzero : (v : ℕ) → v ≡ def.lvt_masked → v ≢ 0
    masked_nonzero v e z = hw.mask_nonzero (sym e ∙ z)

    whole_masked : (v : ℕ) → v ≡ def.lvt_masked → bit_and v def.lvt_masked ≢ 0
    whole_masked v e =
        masked_nonzero _ (ap (λ t. bit_and t def.lvt_masked) e ∙ bit_and_self def.lvt_masked)

    entry_masked :
        (n : ℕ) (t : d.State)
        → IsMasked d def n t
        → (r : Reg) → has_entry n r ≡ true
        → bit_and (d.read r t) def.lvt_masked ≢ 0
    entry_masked n t k lvtt h = whole_masked _ k.timer
    entry_masked n t k lvt0 h = whole_masked _ k.lint0
    entry_masked n t k lvt1 h = whole_masked _ k.lint1
    entry_masked n t k lvterr h = whole_masked _ (k.error (leb→le 3 n h))
    entry_masked n t k lvtpc h = whole_masked _ (k.counter (leb→le 4 n h))
    entry_masked n t k lvtthmr h = masked_nonzero _ (k.thermal (leb→le 5 n h))
    entry_masked n t k lvtcmci h = k.cmci (leb→le 6 n h)
    entry_masked n t k r h = absurd (ground (arith, h))

    mask-Fixed : (q : Reg) (s : d.State) → d.read lvr (mask d def q s) ≡ d.read lvr s
    unfolding mask
    mask-Fixed q s = hw.version q _ s

    if_read :
        (b : Bool) (x y : d.State)
        → d.read lvr (if b then x else y) ≡ (if b then d.read lvr x else d.read lvr y)
    if_read true x y = refl
    if_read false x y = refl

    -- A shutdown only reads the version.
    lapic_shutdown-Fixed :
        (has_apic from_smp_config : Bool) (s : d.State)
        → d.read lvr (lapic_shutdown d def has_apic from_smp_config true s) ≡ d.read lvr s
    unfolding lapic_shutdown disable_local_apic apic_soft_disable clear_local_apic
    lapic_shutdown-Fixed has_apic from_smp_config s =
        simp (if_read, read-only, hw.version, mask-Fixed, if_same) refl

    module _ (n : ℕ) where
      -- A write keeps the silence, if what it writes to an entry has the mask.
      write-Keeps :
          (q : Reg) (v : ℕ)
          → ((r : Reg) → has_entry n r ≡ true → same r q ≡ true → bit_and v def.lvt_masked ≢ 0)
          → same spiv q ≡ false
          → Keeps (IsSilent n) (d.write q v)
      write-Keeps q v ok apart s t = record {
        same_table = same_table_of s (d.write q v s) (hw.version q v s) ∙ t.same_table;
        masked = λ r h. elim (Bool-cases (same r q)) [
          | inl here ↦ simp (hw.entries n r h, here) (ok r h here)
          | inr there ↦ simp (hw.entries n r h, there) (t.masked r h)
        ];
        disabled = simp (hw.spurious, apart) t.disabled;
      }

      pub masked_write-Keeps :
          (q : Reg) (v : ℕ)
          → bit_and v def.lvt_masked ≢ 0
          → same spiv q ≡ false
          → Keeps (IsSilent n) (d.write q v)
      masked_write-Keeps q v ok apart = write-Keeps q v (λ _ _ _. ok) apart

      pub esr_write-Keeps : (v : ℕ) → Keeps (IsSilent n) (d.write esr v)
      esr_write-Keeps v =
          write-Keeps esr v (λ r h e. absurd (ground (arith, (entry_apart n r h).1, e))) refl

      pub tmict_write-Keeps : (v : ℕ) → Keeps (IsSilent n) (d.write tmict v)
      tmict_write-Keeps v =
          write-Keeps tmict v (λ r h e. absurd (ground (arith, (entry_apart n r h).2, e))) refl

      pub set_mask : (v : ℕ) → bit_and (bit_or v def.lvt_masked) def.lvt_masked ≢ 0
      set_mask v = masked_nonzero _ (bit_or-absorb v def.lvt_masked)

      mask-Keeps : (q : Reg) → same spiv q ≡ false → Keeps (IsSilent n) (mask d def q)
      unfolding mask
      mask-Keeps q apart s t = masked_write-Keeps q _ (set_mask (d.read q s)) apart s t

      spiv_write-Keeps :
          (v : ℕ) → bit_and v def.spiv_apic_enabled ≡ 0 → Keeps (IsSilent n) (d.write spiv v)
      spiv_write-Keeps v off s t = record {
        same_table = same_table_of s (d.write spiv v s) (hw.version spiv v s) ∙ t.same_table;
        masked = λ r h. simp (hw.entries n r h, (entry_apart n r h).0) (t.masked r h);
        disabled = simp (hw.spurious) off;
      }

      clear_masks-AllKeep : (maxlvt : ℕ) → AllKeep (IsSilent n) (clear_masks d def maxlvt)
      clear_masks-AllKeep maxlvt =
          only-Keeps (IsSilent n) _ _ (masked_write-Keeps lvterr _ (set_mask _) refl)
          ▸ mask-Keeps lvtt refl
          ▸ mask-Keeps lvt0 refl
          ▸ mask-Keeps lvt1 refl
          ▸ only-Keeps (IsSilent n) _ _ (mask-Keeps lvtpc refl)
          ▸ only-Keeps (IsSilent n) _ _ (mask-Keeps lvtthmr refl)
          ▸ only-Keeps (IsSilent n) _ _
              (λ s. only-Keeps (IsSilent n) _ _ (mask-Keeps lvtcmci refl) s)
          ▸ end

      masked_entry-Keeps :
          (q : Reg) → same spiv q ≡ false → Keeps (IsSilent n) (d.write q def.lvt_masked)
      masked_entry-Keeps q apart = masked_write-Keeps q _ (whole_masked _ refl) apart

      clear_state-AllKeep : (maxlvt : ℕ) → AllKeep (IsSilent n) (clear_state d def maxlvt)
      clear_state-AllKeep maxlvt =
          masked_entry-Keeps lvtt refl
          ▸ masked_entry-Keeps lvt0 refl
          ▸ masked_entry-Keeps lvt1 refl
          ▸ only-Keeps (IsSilent n) _ _ (masked_entry-Keeps lvterr refl)
          ▸ only-Keeps (IsSilent n) _ _ (masked_entry-Keeps lvtpc refl)
          ▸ (λ s. only-Keeps (IsSilent n) _ _ (esr_write-Keeps 0) s)
          ▸ end

      clear_local_apic-Keeps : (mapped : Bool) → Keeps (IsSilent n) (clear_local_apic d def mapped)
      unfolding clear_local_apic
      clear_local_apic-Keeps mapped s t =
          let maxlvt = lapic_get_maxlvt d def s in
          if_kept (IsSilent n) (not mapped) _ _ t (
            run-Keeps (IsSilent n) (clear_state-AllKeep maxlvt) _
              (run-Keeps (IsSilent n) (clear_masks-AllKeep maxlvt) s t))

      pub disable_local_apic-Keeps :
          (mapped : Bool) → Keeps (IsSilent n) (disable_local_apic d def mapped)
      unfolding disable_local_apic apic_soft_disable
      disable_local_apic-Keeps mapped s t = if_kept (IsSilent n) (not mapped) _ _ t (
          spiv_write-Keeps _ (bit_and_cleared 32 _ def.spiv_apic_enabled hw.enable_fits) _
            (clear_local_apic-Keeps mapped s t))

      pub lapic_shutdown-Keeps :
          (has_apic from_smp_config mapped : Bool)
          → Keeps (IsSilent n) (lapic_shutdown d def has_apic from_smp_config mapped)
      unfolding lapic_shutdown
      lapic_shutdown-Keeps has_apic from_smp_config mapped s t =
          if_kept (IsSilent n) _ _ _ t (disable_local_apic-Keeps mapped s t)

    -- What a shutdown of a mapped APIC in use leaves is silent.
    pub lapic_shutdown-IsSilent :
        (has_apic from_smp_config : Bool) (s : d.State)
        → (has_apic || from_smp_config) ≡ true
        → IsSilent (lapic_get_maxlvt d def s) (lapic_shutdown d def has_apic from_smp_config true s)
    lapic_shutdown-IsSilent has_apic from_smp_config s used =
        let (masked, off) =
          lapic_shutdown-IsMasked d def s HoldsLvt_of has_apic from_smp_config used hw.mask_nonzero
            hw.enable_fits in
        record {
          same_table = same_table_of s _ (lapic_shutdown-Fixed has_apic from_smp_config s);
          masked = entry_masked _ _ masked;
          disabled = off;
        }
