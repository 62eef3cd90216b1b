-- ===== src/Apic/Lvt/Masked.antt =====
-- After the shutdown no entry of the local vector table delivers an interrupt.
use resume_from_edk2_tooling.Base.{
  ℕ, ◌≤◌, ◌<◌, ◌^◌, ◌≡◌, Bool, true, false, bit_and, bit_or, ◌==◌, leb, if◌then◌else◌, arith, not,
  ◌&&◌, ◌||◌, ◌≢◌,
}
use resume_from_edk2_tooling.Base.Bits.{bit_or-absorb, bit_and_cleared}
use resume_from_edk2_tooling.Apic.Device.{
  Device, ApicDef, Holds, read-mask, read-only, if_same, lapic_get_maxlvt, lvtt, lvtthmr, lvtpc,
  lvt0, lvt1, lvterr, lvtcmci, spiv,
}
use resume_from_edk2_tooling.Apic.Lvt.{
  clear_local_apic, apic_soft_disable, disable_local_apic, lapic_shutdown,
}

-- The registers that the shutdown writes hold what is written.
pub record HoldsLvt (d : Device) : Type 0 where
  pub timer : Holds d lvtt
  pub lint0 : Holds d lvt0
  pub lint1 : Holds d lvt1
  pub error : Holds d lvterr
  pub counter : Holds d lvtpc
  pub thermal : Holds d lvtthmr
  pub cmci : Holds d lvtcmci
  pub spurious : Holds d spiv

-- Every entry that the APIC has is masked; five of them hold nothing but the mask.
pub record IsMasked (d : Device) (def : ApicDef) (maxlvt : ℕ) (t : d.State) : Type 0 where
  pub timer : d.read lvtt t ≡ def.lvt_masked
  pub lint0 : d.read lvt0 t ≡ def.lvt_masked
  pub lint1 : d.read lvt1 t ≡ def.lvt_masked
  pub error : 3 ≤ maxlvt → d.read lvterr t ≡ def.lvt_masked
  pub counter : 4 ≤ maxlvt → d.read lvtpc t ≡ def.lvt_masked
  pub thermal : 5 ≤ maxlvt → bit_and (d.read lvtthmr t) def.lvt_masked ≡ def.lvt_masked
  pub cmci : 6 ≤ maxlvt → bit_and (d.read lvtcmci t) def.lvt_masked ≢ 0

mask_if_clear : (v m : ℕ) → m ≢ 0 → bit_and (if bit_and v m == 0 then bit_or v m else v) m ≢ 0
mask_if_clear v m ne h = ground (arith, bit_or-absorb v m)

le→leb : (a b : ℕ) → a ≤ b → leb a b ≡ true
le→leb a b h = ground arith

module _ (d : Device) (def : ApicDef) (s : d.State) (h : HoldsLvt d) where
  clear_local_apic-error :
      3 ≤ lapic_get_maxlvt d def s → d.read lvterr (clear_local_apic d def true s) ≡ def.lvt_masked
  unfolding clear_local_apic
  clear_local_apic-error p = simp (read-only, h.error, if_same, le→leb _ _ p)

  clear_local_apic-counter :
      4 ≤ lapic_get_maxlvt d def s → d.read lvtpc (clear_local_apic d def true s) ≡ def.lvt_masked
  unfolding clear_local_apic
  clear_local_apic-counter p = simp (read-only, h.counter, if_same, le→leb _ _ p)

  clear_local_apic-thermal :
      5 ≤ lapic_get_maxlvt d def s
      → bit_and (d.read lvtthmr (clear_local_apic d def true s)) def.lvt_masked ≡ def.lvt_masked
  unfolding clear_local_apic
  clear_local_apic-thermal p =
      simp (read-only, h.thermal, read-mask d def lvtthmr h.thermal, if_same, le→leb _ _ p)
        (bit_or-absorb _ _)

  clear_local_apic-cmci :
      6 ≤ lapic_get_maxlvt d def s
      → def.lvt_masked ≢ 0
      → bit_and (d.read lvtcmci (clear_local_apic d def true s)) def.lvt_masked ≢ 0
  unfolding clear_local_apic
  clear_local_apic-cmci p ne =
      simp (read-only, h.cmci, read-mask d def lvtcmci h.cmci, if_same, le→leb _ _ p)
        (mask_if_clear _ _ ne)

  clear_local_apic-spurious : d.read spiv (clear_local_apic d def true s) ≡ d.read spiv s
  unfolding clear_local_apic
  clear_local_apic-spurious = simp (read-only, h.spurious, read-mask d def spiv h.spurious, if_same)

  clear_local_apic-IsMasked :
      def.lvt_masked ≢ 0 → IsMasked d def (lapic_get_maxlvt d def s) (clear_local_apic d def true s)
  unfolding clear_local_apic
  clear_local_apic-IsMasked ne = record {
    timer = simp (read-only, h.timer, if_same);
    lint0 = simp (read-only, h.lint0, if_same);
    lint1 = simp (read-only, h.lint1, if_same);
    error = clear_local_apic-error;
    counter = clear_local_apic-counter;
    thermal = clear_local_apic-thermal;
    cmci = λ p. clear_local_apic-cmci p ne;
  }

  spiv_keeps : (v m : ℕ) (t : d.State) → IsMasked d def m t → IsMasked d def m (d.write spiv v t)
  spiv_keeps v m t k = record {
    timer = simp h.timer k.timer;
    lint0 = simp h.lint0 k.lint0;
    lint1 = simp h.lint1 k.lint1;
    error = simp h.error k.error;
    counter = simp h.counter k.counter;
    thermal = simp h.thermal k.thermal;
    cmci = simp h.cmci k.cmci;
  }

  -- On an APIC whose registers hold what is written to them, that is mapped, and that the kernel
  -- uses, `lapic_shutdown` masks every entry of the local vector table that the APIC has, and
  -- clears the enable bit of its spurious-interrupt register; the mask is not 0, and the enable bit
  -- fits in 32 bits.
  pub lapic_shutdown-IsMasked :
      (has_apic from_smp_config : Bool)
      → (has_apic || from_smp_config) ≡ true
      → def.lvt_masked ≢ 0
      → def.spiv_apic_enabled < 2 ^ 32
      → let t = lapic_shutdown d def has_apic from_smp_config true s in
        IsMasked d def (lapic_get_maxlvt d def s) t
        × (bit_and (d.read spiv t) def.spiv_apic_enabled ≡ 0)
  unfolding lapic_shutdown disable_local_apic apic_soft_disable
  lapic_shutdown-IsMasked has_apic from_smp_config used ne small =
      let test : (not has_apic && not from_smp_config) ≡ false = ground arith in
      rw test (
        spiv_keeps _ _ _ (clear_local_apic-IsMasked ne),
        simp h.spurious (bit_and_cleared 32 _ def.spiv_apic_enabled small),
      )
