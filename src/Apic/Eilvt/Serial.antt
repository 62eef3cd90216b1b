-- ===== src/Apic/Eilvt/Serial.antt =====
-- Processors that set up the same entry at once fare as each would alone.
use resume_from_edk2_tooling.Base.{
  ℕ, suc, ◌≤◌, ◌<◌, ◌≡◌, refl, sym, ap, ◌∙◌, inl, inr, true, false, Option, some, List, arith, ◌==◌,
  if◌then◌else◌, Bool-cases,
}
use resume_from_edk2_tooling.Apic.Device.{Device, Holds, eilvt, number}
use resume_from_edk2_tooling.Apic.Eilvt.{
  EilvtDef, Status, done, einval, ebusy, eilvt_entry_is_changeable, is_taken, setup_apic_eilvt,
  new_entry,
}
use resume_from_edk2_tooling.Apic.Eilvt.Cores.{returned, interleave, at_begin}
use resume_from_edk2_tooling.Apic.Eilvt.Progress.{turns, interleave-returned}
use resume_from_edk2_tooling.Apic.Eilvt.Refused.{interleave-refused, held_other}
use resume_from_edk2_tooling.Apic.Eilvt.Reserve.{setup_apic_eilvt_alone, ==_refl}

module _ (d : Device) (def : EilvtDef) (fuel offset vector msg_type mask cell : ℕ)
    (in_range : offset < def.nr_max) where
  -- A call of one processor alone.
  abbrev pub alone : d.State → Option (Status × ℕ × d.State)
  alone s = setup_apic_eilvt def d (suc (suc fuel)) (λ _ c. c) offset vector msg_type mask cell s

  alone-taken :
      (s : d.State)
      → is_taken def cell (new_entry def vector msg_type mask) ≡ true
      → alone s ≡ some (einval, cell, s)
  alone-taken s taken =
      let n : ℕ = new_entry def vector msg_type mask in
      let other : (cell == n) ≡ false = held_other def offset n cell in_range taken in
      setup_apic_eilvt_alone def d fuel offset vector msg_type mask cell s in_range
      ∙ simp (taken, other) refl

  alone-busy :
      (s : d.State)
      → is_taken def cell (new_entry def vector msg_type mask) ≡ false
      → eilvt_entry_is_changeable def (d.read (eilvt offset) s) (new_entry def vector msg_type mask)
        ≡ false
      → alone s ≡ some (ebusy, new_entry def vector msg_type mask, s)
  alone-busy s free fixed =
      setup_apic_eilvt_alone def d fuel offset vector msg_type mask cell s in_range
      ∙ simp (free, fixed) refl

  alone-done :
      (s : d.State)
      → is_taken def cell (new_entry def vector msg_type mask) ≡ false
      → eilvt_entry_is_changeable def (d.read (eilvt offset) s) (new_entry def vector msg_type mask)
        ≡ true
      → alone s
        ≡ some (
          done,
          new_entry def vector msg_type mask,
          d.write (eilvt offset) (new_entry def vector msg_type mask) s,
        )
  alone-done s free open_entry =
      setup_apic_eilvt_alone def d fuel offset vector msg_type mask cell s in_range
      ∙ simp (free, open_entry) refl

-- However processors that call `setup_APIC_eilvt` with the same arguments take turns, each of them
-- that has had four turns has returned what it would have returned alone, with the register as the
-- call alone would have left it. The offset is in range, and the register holds what is written.
pub interleave-setup_apic_eilvt :
    (d : Device) (def : EilvtDef) (fuel offset vector msg_type mask cell : ℕ) (start : ℕ → d.State)
    (order : List ℕ) (i : ℕ)
    → offset < def.nr_max
    → Holds d (eilvt offset)
    → 4 ≤ turns i order
    → let new = new_entry def vector msg_type mask in
      let s =
        interleave def offset
          (λ _. new)
          order
          (at_begin cell (λ k. d.read (eilvt offset) (start k))) in
      (o : Status × ℕ × d.State) × (setup_apic_eilvt def d
          (suc (suc fuel))
          (λ _ c. c)
          offset
          vector
          msg_type
          mask
          cell
          (start i)
        ≡ some o)
      × (s.pc i ≡ returned o.0)
      × (s.entry i ≡ d.read (eilvt offset) o.2)
interleave-setup_apic_eilvt d def fuel offset vector msg_type mask cell start order i in_range holds
      enough =
    let new : ℕ = new_entry def vector msg_type mask in
    let old : ℕ → ℕ = λ k. d.read (eilvt offset) (start k) in
    let written : d.read (eilvt offset) (d.write (eilvt offset) new (start i)) ≡ new =
      holds (eilvt offset) new (start i)
      ∙ ap (λ b. if b then new else old i) (==_refl (number (eilvt offset))) in
    elim (Bool-cases (is_taken def cell new)) [
      | inl taken ↦
          let r = interleave-refused def offset new cell old order i in_range taken (omega arith) in
          (
            (einval, cell, start i),
            alone-taken d def fuel offset vector msg_type mask cell in_range (start i) taken,
            r.0,
            r.1,
          )
      | inr free ↦
          let r = interleave-returned def offset new cell old order i in_range free enough in
          elim (Bool-cases (eilvt_entry_is_changeable def (old i) new)) [
            | inl e ↦ (
              (done, new, d.write (eilvt offset) new (start i)),
              alone-done d def fuel offset vector msg_type mask cell in_range (start i) free e,
              r.0 ∙ ap (λ b. returned (if b then done else ebusy)) e,
              r.1 ∙ ap (λ b. if b then new else old i) e ∙ sym written,
            )
            | inr e ↦ (
              (ebusy, new, start i),
              alone-busy d def fuel offset vector msg_type mask cell in_range (start i) free e,
              r.0 ∙ ap (λ b. returned (if b then done else ebusy)) e,
              r.1 ∙ ap (λ b. if b then new else old i) e,
            )
          ]
    ]
