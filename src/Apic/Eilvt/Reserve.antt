-- ===== src/Apic/Eilvt/Reserve.antt =====
-- Reserving an LVT offset, alone and against other processors.
use resume_from_edk2_tooling.Base.{
  ℕ, zero, suc, ◌<◌, ◌≡◌, ◌⊎◌, true, false, not, ◌&&◌, leb, ◌==◌, if◌then◌else◌, some, arith,
  Bool-cases, inl, inr,
}
use resume_from_edk2_tooling.Apic.Device.{Device, eilvt}
use resume_from_edk2_tooling.Apic.Eilvt.{
  EilvtDef, done, einval, ebusy, eilvt_entry_is_changeable, is_taken, reserve_loop,
  reserve_eilvt_offset, setup_apic_eilvt, new_entry, on_reserved,
}

pub ==_refl : (a : ℕ) → (a == a) ≡ true
==_refl a = ground arith

if_new : (c n : ℕ) → (if n == c then n else n) ≡ n
if_new c n = ground arith

module _ (def : EilvtDef) where
  -- The loop returns the value that it was asked for only if the cell holds it at that time, and
  -- any other value only if that value could not be replaced; then it has not written the cell.
  pub reserve_loop-cell :
      (fuel : ℕ) (noise : ℕ → ℕ → ℕ) (cell rsvd new r left : ℕ)
      → reserve_loop def fuel noise cell rsvd new ≡ some (r, left)
      → ((r ≡ new) × (left ≡ new)) ⊎ (is_taken def r new ≡ true)
  unfolding reserve_loop
  reserve_loop-cell zero noise cell rsvd new r left h = cc
  reserve_loop-cell (suc fuel) noise cell rsvd new r left h =
      elim (Bool-cases (is_taken def rsvd new)) [
        | inl taken ↦ inr (ground (arith, taken))
        | inr free ↦ elim (Bool-cases (noise fuel cell == new)) [
          | inl hit ↦ inl (ground (arith, free, hit))
          | inr miss ↦
              reserve_loop-cell fuel noise
                (if noise fuel cell == rsvd then new else noise fuel cell) (noise fuel cell) new r
                left (ground (arith, free, miss))
        ]
      ]

  -- With no other processor two rounds are enough: the cell is given the new value unless it
  -- holds a vector that may not be replaced, which is then returned and left in place.
  pub reserve_eilvt_offset_alone :
      (fuel offset cell new : ℕ)
      → offset < def.nr_max
      → reserve_eilvt_offset def (suc (suc fuel)) (λ _ c. c) offset cell new
        ≡ some (if is_taken def cell new then (cell, cell) else (new, new))
  unfolding reserve_eilvt_offset reserve_loop
  reserve_eilvt_offset_alone fuel offset cell new h =
      let in_range : leb def.nr_max offset ≡ false = ground arith in
      elim (Bool-cases (is_taken def cell new)) [
        | inl taken ↦ rw (in_range, taken)
        | inr free ↦ elim (Bool-cases (cell == new)) [
          | inl hit ↦ rw (in_range, free, hit) (ground (arith, ==_refl cell, hit))
          | inr miss ↦
              rw (in_range, free, miss, ==_refl cell) (ground (arith, ==_refl new, if_new cell new))
        ]
      ]

  -- With no other processor at work and fuel for two rounds, `setup_APIC_eilvt` with an offset in
  -- range returns -EINVAL and changes nothing if the offset is taken by another entry; otherwise it
  -- reserves the offset, and returns -EBUSY if the entry may not be changed, or 0 once it is written.
  pub setup_apic_eilvt_alone :
      (d : Device) (fuel offset vector msg_type mask cell : ℕ) (s : d.State)
      → offset < def.nr_max
      → let new = new_entry def vector msg_type mask in
        setup_apic_eilvt def d (suc (suc fuel)) (λ _ c. c) offset vector msg_type mask cell s
        ≡ some (
            if is_taken def cell new && not (cell == new)
            then (einval, cell, s)
            else if not (eilvt_entry_is_changeable def (d.read (eilvt offset) s) new)
            then (ebusy, new, s)
            else (done, new, d.write (eilvt offset) new s))
  unfolding setup_apic_eilvt on_reserved
  setup_apic_eilvt_alone d fuel offset vector msg_type mask cell s h =
      rw
        (
          setup_apic_eilvt,
          reserve_eilvt_offset_alone fuel offset cell (new_entry def vector msg_type mask) h,
        )
        (ground (arith, ==_refl (new_entry def vector msg_type mask)))
