-- ===== src/Apic/Eilvt/Agreement.antt =====
-- Processors that reserve the same offset at the same time agree on its vector.
use resume_from_edk2_tooling.Base.{
  ℕ, ◌^◌, ◌<◌, bit_and, ◌≡◌, refl, sym, ap, ◌∙◌, subst, ◌≢◌, inl, inr, false, List, [], ◌∷◌, arith,
  leb, ◌==◌, Bool-cases,
}
use resume_from_edk2_tooling.Apic.Eilvt.{
  EilvtDef, done, einval, ebusy, eilvt_entry_is_changeable, is_taken, vector_of, not32,
}
use resume_from_edk2_tooling.Apic.Eilvt.Cores.{
  Pc, begin, asking, reserved, returned, View, Cores, step, turn, interleave, at_begin,
}
use resume_from_edk2_tooling.Base.Bits.{bit_and_cleared, bit_and_comm, bit_and_self}

module _ (def : EilvtDef) (one_bit : def.masked < 2 ^ 32) where
  -- The bit that masks an entry is no part of its vector.
  vector_of-unmasked : (e : ℕ) → bit_and (vector_of def e) def.masked ≡ 0
  vector_of-unmasked e = bit_and_cleared 32 e def.masked one_bit

  vector_of-masked : vector_of def def.masked ≡ 0
  vector_of-masked =
      let outside : ℕ = not32 def.masked in
      bit_and_comm def.masked outside
      ∙ sym (ap (λ t. bit_and t def.masked) (bit_and_self outside))
      ∙ vector_of-unmasked outside

  -- A cell with a vector is only given an entry with the same vector, unless it is freed.
  is_taken-agree :
      (cell new : ℕ)
      → is_taken def cell new ≡ false
      → vector_of def cell ≢ 0
      → vector_of def new ≢ 0
      → vector_of def new ≡ vector_of def cell
  unfolding eilvt_entry_is_changeable
  is_taken-agree cell new free named asked =
      ground (arith, vector_of-unmasked cell, vector_of-masked)

  is_taken-own : (new : ℕ) → is_taken def new new ≡ false
  unfolding eilvt_entry_is_changeable
  is_taken-own new = ground arith

  -- What holds of a processor that asks for `new` while the cell holds `cell`.
  abbrev pub Sound : (new cell entry : ℕ) → Pc → Type 0
  Sound new cell entry (reserved old got) = got ≡ new → vector_of def cell ≡ vector_of def new
  Sound new cell entry (returned done) = (entry ≡ new) × (vector_of def cell ≡ vector_of def new)
  Sound new cell entry _ = Unit

  module _ (offset : ℕ) (in_range : offset < def.nr_max) where
    -- A cell that holds a processor's vector still holds it after the turn of another.
    step-vector :
        (new cell entry v : ℕ) (pc : Pc)
        → vector_of def new ≢ 0
        → vector_of def v ≢ 0
        → vector_of def cell ≡ vector_of def v
        → vector_of def (step def offset new cell entry pc).cell ≡ vector_of def v
    unfolding step
    step-vector new cell entry v begin asked named h = elim (Bool-cases (leb def.nr_max offset)) [
      | inl e ↦ simp e h
      | inr e ↦ simp e h
    ]
    step-vector new cell entry v (asking old rsvd) asked named h =
        elim (Bool-cases (is_taken def rsvd new)) [
          | inl taken ↦ simp taken h
          | inr free ↦ elim (Bool-cases (cell == rsvd)) [
            | inl hit ↦
                let same_cell : cell ≡ rsvd = ground arith in
                let held : vector_of def rsvd ≡ vector_of def v =
                  ap (vector_of def) (sym same_cell) ∙ h in
                let agreed : vector_of def new ≡ vector_of def rsvd =
                  is_taken-agree rsvd new free (λ z. named (sym held ∙ z)) asked in
                simp (free, hit) (agreed ∙ held)
            | inr miss ↦ simp (free, miss) h
          ]
        ]
    step-vector new cell entry v (reserved old got) asked named h = elim (Bool-cases (got == new)) [
      | inl mine ↦ elim (Bool-cases (eilvt_entry_is_changeable def old new)) [
        | inl e ↦ simp (mine, e) h
        | inr e ↦ simp (mine, e) h
      ]
      | inr other ↦ simp other h
    ]
    step-vector new cell entry v (returned status) asked named h = h

    step-Sound :
        (new cell entry : ℕ) (pc : Pc)
        → vector_of def new ≢ 0
        → Sound new cell entry pc
        → let v = step def offset new cell entry pc in Sound new v.cell v.entry v.pc
    unfolding step
    step-Sound new cell entry begin asked h =
        let open_cell : leb def.nr_max offset ≡ false = ground arith in rw open_cell tt
    step-Sound new cell entry (asking old rsvd) asked h =
        elim (Bool-cases (is_taken def rsvd new)) [
          | inl taken ↦ rw taken λ mine. absurd (ground (arith, is_taken-own new))
          | inr free ↦ elim (Bool-cases (cell == new)) [
            | inl hit ↦ rw (free, hit) λ _. ap (vector_of def) (ground arith)
            | inr miss ↦ rw (free, miss) tt
          ]
        ]
    step-Sound new cell entry (reserved old got) asked h = elim (Bool-cases (got == new)) [
      | inl mine ↦ elim (Bool-cases (eilvt_entry_is_changeable def old new)) [
        | inl e ↦ rw (mine, e) (refl, h (ground arith))
        | inr e ↦ rw (mine, e) tt
      ]
      | inr other ↦ rw other tt
    ]
    step-Sound new cell entry (returned status) asked h = h

    module _ (request : ℕ → ℕ) (named : (i : ℕ) → vector_of def (request i) ≢ 0) where
      abbrev pub AllSound : Cores → Type 0
      AllSound s = (i : ℕ) → Sound (request i) s.cell (s.entry i) (s.pc i)

      -- The turn of another processor.
      Sound-step :
          (new cell cell' entry : ℕ) (pc : Pc)
          → (vector_of def cell ≡ vector_of def new → vector_of def cell' ≡ vector_of def new)
          → Sound new cell entry pc
          → Sound new cell' entry pc
      Sound-step new cell cell' entry begin keep h = tt
      Sound-step new cell cell' entry (asking old rsvd) keep h = tt
      Sound-step new cell cell' entry (reserved old got) keep h = λ mine. keep (h mine)
      Sound-step new cell cell' entry (returned done) keep h = (h.0, keep h.1)
      Sound-step new cell cell' entry (returned einval) keep h = tt
      Sound-step new cell cell' entry (returned ebusy) keep h = tt

      turn-AllSound : (i : ℕ) (s : Cores) → AllSound s → AllSound (turn def offset request i s)
      unfolding turn
      turn-AllSound i s h j = elim (Bool-cases (j == i)) [
        | inl mine ↦
            let same_core : j ≡ i = ground arith in
            rw (mine, same_core)
              (step-Sound (request i) s.cell (s.entry i) (s.pc i) (named i) (h i))
        | inr other ↦
            let t : View = step def offset (request i) s.cell (s.entry i) (s.pc i) in
            rw other (
              Sound-step (request j) s.cell t.cell (s.entry j) (s.pc j)
                (step-vector (request i) s.cell (s.entry i) (request j) (s.pc i) (named i)
                  (named j))
                (h j))
      ]

      interleave-AllSound :
          (order : List ℕ) (s : Cores)
          → AllSound s
          → AllSound (interleave def offset request order s)
      unfolding interleave
      interleave-AllSound [] s h = h
      interleave-AllSound (i ∷ rest) s h =
          interleave-AllSound rest (turn def offset request i s) (turn-AllSound i s h)

      done-vector :
          (s : Cores)
          → AllSound s
          → (i : ℕ) → s.pc i ≡ returned done
          → (s.entry i ≡ request i) × (vector_of def s.cell ≡ vector_of def (request i))
      done-vector s h i e = subst (λ pc. Sound (request i) s.cell (s.entry i) pc) e (h i)

-- However processors that set up the same offset take turns, any two of them that return 0 have
-- written what they asked for and have asked for the same vector, which the shared cell holds too.
-- The offset is in range, no processor frees it by asking for no vector, and APIC_EILVT_MASKED is
-- a 32-bit number; the cell and the registers may hold anything at the start.
pub interleave-agree :
    (def : EilvtDef) (offset cell : ℕ) (entry request : ℕ → ℕ) (order : List ℕ) (i j : ℕ)
    → def.masked < 2 ^ 32
    → offset < def.nr_max
    → ((k : ℕ) → vector_of def (request k) ≢ 0)
    → let s = interleave def offset request order (at_begin cell entry) in
      s.pc i ≡ returned done
      → s.pc j ≡ returned done
      → (s.entry i ≡ request i)
        × (s.entry j ≡ request j)
        × (vector_of def (s.entry i) ≡ vector_of def (s.entry j))
        × (vector_of def s.cell ≡ vector_of def (s.entry i))
interleave-agree def offset cell entry request order i j one_bit in_range named di dj =
    let s : Cores = interleave def offset request order (at_begin cell entry) in
    let h : AllSound def one_bit offset in_range request named s =
      interleave-AllSound def one_bit offset in_range request named order _ (λ _. tt) in
    let a = done-vector def one_bit offset in_range request named s h i di in
    let b = done-vector def one_bit offset in_range request named s h j dj in
    rw (a.0, b.0) (refl, refl, sym a.1 ∙ b.1, a.1)
