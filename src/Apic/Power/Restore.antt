-- ===== src/Apic/Power/Restore.antt =====
-- What is saved at suspend is there again after resume, whatever the APIC held in between.
use resume_from_edk2_tooling.Base.{
  ℕ, ◌≤◌, ◌≡◌, true, leb, if◌then◌else◌, arith, refl, subst, sym, ap,
}
use resume_from_edk2_tooling.Apic.Device.{
  Device, ApicDef, Holds, read-only, if_same, run, lapic_get_maxlvt, id, taskpri, ldr, dfr, lvr,
  lvtt, lvtthmr, lvtpc, lvt0, lvt1, lvterr, lvtcmci, spiv, tmict, tdcr,
}
use resume_from_edk2_tooling.Apic.Power.{PmState, Boot, save, lapic_suspend, lapic_resume, restore}

-- The registers that resume writes hold what is written.
pub record HoldsAll (d : Device) : Type 0 where
  pub holds_id : Holds d id
  pub holds_taskpri : Holds d taskpri
  pub holds_ldr : Holds d ldr
  pub holds_dfr : Holds d dfr
  pub holds_spiv : Holds d spiv
  pub holds_lvtt : Holds d lvtt
  pub holds_lvtpc : Holds d lvtpc
  pub holds_lvt0 : Holds d lvt0
  pub holds_lvt1 : Holds d lvt1
  pub holds_lvterr : Holds d lvterr
  pub holds_tmict : Holds d tmict
  pub holds_tdcr : Holds d tdcr
  pub holds_lvtthmr : Holds d lvtthmr
  pub holds_lvtcmci : Holds d lvtcmci

-- `t` agrees with `s` on the registers that suspend saves, those of missing entries left out.
pub record Agrees (d : Device) (def : ApicDef) (s t : d.State) : Type 0 where
  pub same_id : d.read id t ≡ d.read id s
  pub same_taskpri : d.read taskpri t ≡ d.read taskpri s
  pub same_ldr : d.read ldr t ≡ d.read ldr s
  pub same_dfr : d.read dfr t ≡ d.read dfr s
  pub same_spiv : d.read spiv t ≡ d.read spiv s
  pub same_lvtt : d.read lvtt t ≡ d.read lvtt s
  pub same_lvt0 : d.read lvt0 t ≡ d.read lvt0 s
  pub same_lvt1 : d.read lvt1 t ≡ d.read lvt1 s
  pub same_lvterr : d.read lvterr t ≡ d.read lvterr s
  pub same_tmict : d.read tmict t ≡ d.read tmict s
  pub same_tdcr : d.read tdcr t ≡ d.read tdcr s
  pub same_lvtpc : 4 ≤ lapic_get_maxlvt d def s → d.read lvtpc t ≡ d.read lvtpc s
  pub same_lvtthmr : 5 ≤ lapic_get_maxlvt d def s → d.read lvtthmr t ≡ d.read lvtthmr s
  pub same_lvtcmci : 6 ≤ lapic_get_maxlvt d def s → d.read lvtcmci t ≡ d.read lvtcmci s

le→leb : (a b : ℕ) → a ≤ b → leb a b ≡ true
le→leb a b h = ground arith

module _ (d : Device) (def : ApicDef) (h : HoldsAll d) where
  save-active : (pm : PmState) (s : d.State) → (save d def pm s).active ≡ pm.active
  unfolding save
  save-active pm s = refl

  restore-save :
      (pm : PmState) (s lost : d.State)
      → Agrees d def s (run (restore d def (lapic_get_maxlvt d def s) (save d def pm s)) lost)
  unfolding save
  restore-save pm s lost = record {
    same_id = simp (read-only, h.holds_id, if_same);
    same_taskpri = simp (read-only, h.holds_taskpri, if_same);
    same_ldr = simp (read-only, h.holds_ldr, if_same);
    same_dfr = simp (read-only, h.holds_dfr, if_same);
    same_spiv = simp (read-only, h.holds_spiv, if_same);
    same_lvtt = simp (read-only, h.holds_lvtt, if_same);
    same_lvt0 = simp (read-only, h.holds_lvt0, if_same);
    same_lvt1 = simp (read-only, h.holds_lvt1, if_same);
    same_lvterr = simp (read-only, h.holds_lvterr, if_same);
    same_tmict = simp (read-only, h.holds_tmict, if_same);
    same_tdcr = simp (read-only, h.holds_tdcr, if_same);
    same_lvtpc = λ p. simp (read-only, h.holds_lvtpc, if_same, le→leb _ _ p);
    same_lvtthmr = λ p. simp (read-only, h.holds_lvtthmr, if_same, le→leb _ _ p);
    same_lvtcmci = λ p. simp (read-only, h.holds_lvtcmci, if_same, le→leb _ _ p);
  }

  -- On an APIC whose registers hold what is written to them, after an active suspend and a resume,
  -- with any state of the APIC in between in which its version register reads the same, every
  -- register that suspend saves reads as it did before.
  pub lapic_resume-lapic_suspend :
      (boot : Boot) (pm : PmState) (s lost : d.State) (base : ℕ)
      → pm.active ≡ true
      → d.read lvr lost ≡ d.read lvr s
      → Agrees d def s (lapic_resume d def boot (lapic_suspend d def boot pm s).0 base lost).1
  unfolding lapic_suspend lapic_resume
  lapic_resume-lapic_suspend boot pm s lost base act same_lvr =
      let same_maxlvt : lapic_get_maxlvt d def lost ≡ lapic_get_maxlvt d def s =
        ap (λ v. if def.is_integrated (def.version_of v) then def.maxlvt_of v else 2) same_lvr in
      subst (λ t. Agrees d def s t) (ground (arith, act, save-active pm s))
        (subst (λ m. Agrees d def s (run (restore d def m (save d def pm s)) lost))
          (sym same_maxlvt) (restore-save pm s lost))
