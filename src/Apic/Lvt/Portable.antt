-- ===== src/Apic/Lvt/Portable.antt =====
-- Shutting down does the same through any two drivers that are alike.
use resume_from_edk2_tooling.Base.{
  ℕ, ◌^◌, ◌<◌, bit_and, bit_or, ◌≡◌, refl, ap, subst, inl, inr, Bool, true, false, not, ◌&&◌, arith,
  ltb, leb, ◌==◌, if◌then◌else◌, Bool-cases,
}
use resume_from_edk2_tooling.Apic.Device.{
  ApicDef, Device, Reg, same, dfr, spiv, lvr, lvtt, lvt0, lvt1, lvterr, lvtpc, lvtthmr, lvtcmci,
  esr, only, mask, run, lapic_get_maxlvt, lapic_is_integrated, not32,
}
use resume_from_edk2_tooling.Apic.Drivers.Alike.{SameRegs, Alike}
use resume_from_edk2_tooling.Apic.Lvt.{
  clear_masks, clear_state, clear_local_apic, apic_soft_disable, disable_local_apic, lapic_shutdown,
}
use resume_from_edk2_tooling.Base.Bits.{bit_or-lt, bit_and-lt}

-- What shutting down writes to is written through both.
pub record AllWritten (dropped : Reg → Bool) : Type 0 where
  pub lvtt : dropped lvtt ≡ false
  pub lvt0 : dropped lvt0 ≡ false
  pub lvt1 : dropped lvt1 ≡ false
  pub lvterr : dropped lvterr ≡ false
  pub lvtpc : dropped lvtpc ≡ false
  pub lvtthmr : dropped lvtthmr ≡ false
  pub lvtcmci : dropped lvtcmci ≡ false
  pub esr : dropped esr ≡ false
  pub spiv : dropped spiv ≡ false

module _ (d e : Device) (def : ApicDef) (dropped : Reg → Bool) (alike : Alike d e dropped)
    (written : AllWritten dropped) (masked_narrow : def.lvt_masked < 2 ^ 32)
    (error_narrow : def.error_apic_vector < 2 ^ 32) where
  -- Statements that keep the registers the same.
  abbrev pub Matches : (d.State → d.State) → (e.State → e.State) → Type 0
  Matches f g = (s : d.State) (t : e.State) → SameRegs d e s t → SameRegs d e (f s) (g t)

  only-Matches :
      (b : Bool) (f : d.State → d.State) (g : e.State → e.State)
      → Matches f g
      → Matches (only b f) (only b g)
  unfolding only
  only-Matches true f g m s t h = m s t h
  only-Matches false f g m s t h = h

  mask-Matches :
      (r : Reg) → same r dfr ≡ false → dropped r ≡ false → Matches (mask d def r) (mask e def r)
  unfolding mask
  mask-Matches r plain open_r s t h =
      let v : ℕ = bit_or (d.read r s) def.lvt_masked in
      subst (λ x. SameRegs d e (d.write r v s) (e.write r (bit_or x def.lvt_masked) t))
        (h.reads r plain)
        (alike.write r v open_r
          (bit_or-lt 32 (d.read r s) def.lvt_masked (h.narrow r plain) masked_narrow) h)

  write-Matches :
      (r : Reg) (v : ℕ) → dropped r ≡ false → v < 2 ^ 32 → Matches (d.write r v) (e.write r v)
  write-Matches r v open_r narrow s t h = alike.write r v open_r narrow h

  -- The entry of corrected machine checks is masked unless it is.
  cmci-Matches :
      Matches
        (λ s. only (bit_and (d.read lvtcmci s) def.lvt_masked == 0) (mask d def lvtcmci) s)
        (λ s. only (bit_and (e.read lvtcmci s) def.lvt_masked == 0) (mask e def lvtcmci) s)
  cmci-Matches s t h =
      subst
        (λ x.
          SameRegs d e
            (only (bit_and (d.read lvtcmci s) def.lvt_masked == 0) (mask d def lvtcmci) s)
            (only (bit_and x def.lvt_masked == 0) (mask e def lvtcmci) t))
        (h.reads lvtcmci refl)
        (only-Matches _ _ _ (mask-Matches lvtcmci refl written.lvtcmci) s t h)

  esr-Matches :
      (b : Bool)
      → Matches
          (λ s. only (lapic_is_integrated d def s && b) (d.write esr 0) s)
          (λ s. only (lapic_is_integrated e def s && b) (e.write esr 0) s)
  esr-Matches b s t h =
      subst
        (λ x.
          SameRegs d e (only (lapic_is_integrated d def s && b) (d.write esr 0) s)
            (only (def.is_integrated (def.version_of x) && b) (e.write esr 0) t))
        (h.reads lvr refl)
        (only-Matches _ _ _ (write-Matches esr 0 written.esr (omega arith)) s t h)

  clear_masks-Matches :
      (maxlvt : ℕ) → Matches (run (clear_masks d def maxlvt)) (run (clear_masks e def maxlvt))
  clear_masks-Matches maxlvt s t h = last maxlvt _ _ (
      mask-Matches lvt1 refl written.lvt1 _ _ (
        mask-Matches lvt0 refl written.lvt0 _ _ (
          mask-Matches lvtt refl written.lvtt _ _ (
            only-Matches (leb 3 maxlvt) _ _
              (write-Matches lvterr _ written.lvterr
                (bit_or-lt 32 def.error_apic_vector def.lvt_masked error_narrow masked_narrow))
              s t h))))
    where
      last :
          (n : ℕ)
          → Matches
              (λ s.
                only
                  (leb 6 n)
                  (λ s.
                    only (bit_and (d.read lvtcmci s) def.lvt_masked == 0) (mask d def lvtcmci) s)
                  (only (leb 5 n) (mask d def lvtthmr) (only (leb 4 n) (mask d def lvtpc) s)))
              (λ s.
                only
                  (leb 6 n)
                  (λ s.
                    only (bit_and (e.read lvtcmci s) def.lvt_masked == 0) (mask e def lvtcmci) s)
                  (only (leb 5 n) (mask e def lvtthmr) (only (leb 4 n) (mask e def lvtpc) s)))
      last n s t h = only-Matches (leb 6 n) _ _ cmci-Matches _ _ (
          only-Matches (leb 5 n) _ _ (mask-Matches lvtthmr refl written.lvtthmr) _ _
            (only-Matches (leb 4 n) _ _ (mask-Matches lvtpc refl written.lvtpc) s t h))

  clear_state-Matches :
      (maxlvt : ℕ) → Matches (run (clear_state d def maxlvt)) (run (clear_state e def maxlvt))
  clear_state-Matches maxlvt s t h = esr-Matches (ltb 3 maxlvt) _ _ (
      only-Matches (leb 4 maxlvt) _ _ (write-Matches lvtpc _ written.lvtpc masked_narrow) _ _ (
        only-Matches (leb 3 maxlvt) _ _ (write-Matches lvterr _ written.lvterr masked_narrow) _ _ (
          write-Matches lvt1 _ written.lvt1 masked_narrow _ _ (
            write-Matches lvt0 _ written.lvt0 masked_narrow _ _
              (write-Matches lvtt _ written.lvtt masked_narrow s t h)))))

  maxlvt-eq :
      (s : d.State) (t : e.State)
      → SameRegs d e s t
      → lapic_get_maxlvt d def s ≡ lapic_get_maxlvt e def t
  maxlvt-eq s t h =
      ap (λ x. if def.is_integrated (def.version_of x) then def.maxlvt_of x else 2)
        (h.reads lvr refl)

  clear_local_apic-Matches :
      (mapped : Bool) → Matches (clear_local_apic d def mapped) (clear_local_apic e def mapped)
  unfolding clear_local_apic
  clear_local_apic-Matches false s t h = h
  clear_local_apic-Matches true s t h =
      subst
        (λ n.
          SameRegs d e
            (run (clear_state d def (lapic_get_maxlvt d def s))
              (run (clear_masks d def (lapic_get_maxlvt d def s)) s))
            (run (clear_state e def n) (run (clear_masks e def n) t)))
        (maxlvt-eq s t h) (clear_state-Matches _ _ _ (clear_masks-Matches _ s t h))

  pub disable_local_apic-Matches :
      (mapped : Bool) → Matches (disable_local_apic d def mapped) (disable_local_apic e def mapped)
  unfolding disable_local_apic apic_soft_disable
  disable_local_apic-Matches false s t h = h
  disable_local_apic-Matches true s t h =
      let s' : d.State = clear_local_apic d def true s in
      let t' : e.State = clear_local_apic e def true t in
      let cleared : SameRegs d e s' t' = clear_local_apic-Matches true s t h in
      let off : ℕ = not32 def.spiv_apic_enabled in
      subst
        (λ x.
          SameRegs d e (d.write spiv (bit_and (d.read spiv s') off) s')
            (e.write spiv (bit_and x off) t'))
        (cleared.reads spiv refl)
        (alike.write spiv _ written.spiv (bit_and-lt 32 (d.read spiv s') off (omega arith)) cleared)

  -- Through two drivers that are alike, `lapic_shutdown` leaves the same in every register.
  pub lapic_shutdown-Matches :
      (has_apic from_smp_config mapped : Bool)
      → Matches
          (lapic_shutdown d def has_apic from_smp_config mapped)
          (lapic_shutdown e def has_apic from_smp_config mapped)
  unfolding lapic_shutdown
  lapic_shutdown-Matches has_apic from_smp_config mapped s t h =
      elim (Bool-cases (not has_apic && not from_smp_config)) [
        | inl gone ↦ simp gone h
        | inr here ↦ simp here (disable_local_apic-Matches mapped s t h)
      ]
