-- ===== src/Apic/Eilvt/Progress.antt =====
-- Processors that set up the same entry at the same time do not keep one another waiting.
use resume_from_edk2_tooling.Base.{
  ℕ, ◌+◌, ◌-◌, ◌≤◌, ◌<◌, ◌≡◌, refl, sym, ap, ◌⊎◌, inl, inr, true, false, List, [], ◌∷◌, arith, leb,
  ◌==◌, if◌then◌else◌, Bool-cases,
}
use resume_from_edk2_tooling.Apic.Eilvt.{
  EilvtDef, Status, done, ebusy, eilvt_entry_is_changeable, is_taken,
}
use resume_from_edk2_tooling.Apic.Eilvt.Cores.{
  Pc, begin, asking, reserved, returned, Cores, step, turn, interleave, at_begin,
}

-- The turns of processor `i`.
abbrev pub turns : ℕ → List ℕ → ℕ
turns i [] = 0
turns i (j ∷ rest) = (if i == j then 1 else 0) + turns i rest

module _ (def : EilvtDef) (offset new : ℕ) (in_range : offset < def.nr_max) where
  -- What `setup_APIC_eilvt` returns once the offset is reserved, and the register then.
  abbrev pub outcome : ℕ → Status
  outcome old = if eilvt_entry_is_changeable def old new then done else ebusy

  abbrev pub left_in : ℕ → ℕ
  left_in old = if eilvt_entry_is_changeable def old new then new else old

  -- What holds of a processor whose register held `first`.
  abbrev pub OnTrack : (first cell entry : ℕ) → Pc → Type 0
  OnTrack first cell entry begin = entry ≡ first
  OnTrack first cell entry (asking old rsvd) =
      (entry ≡ first)
      × (old ≡ first)
      × (is_taken def rsvd new ≡ false)
      × ((rsvd ≡ cell) ⊎ (cell ≡ new))
  OnTrack first cell entry (reserved old got) = (entry ≡ first) × (old ≡ first) × (got ≡ new)
  OnTrack first cell entry (returned status) = (entry ≡ left_in first) × (status ≡ outcome first)

  -- How many turns a processor needs at most.
  abbrev pub rank : (cell : ℕ) → Pc → ℕ
  rank cell begin = 4
  rank cell (asking old rsvd) = if cell == new then 2 else 3
  rank cell (reserved old got) = 1
  rank cell (returned status) = 0

  pub taken_own : is_taken def new new ≡ false
  unfolding eilvt_entry_is_changeable
  taken_own = ground arith

  -- The cell keeps its value or is given the new one, and stays free.
  step-cell :
      (cell entry : ℕ) (pc : Pc)
      → let c = (step def offset new cell entry pc).cell in (c ≡ cell) ⊎ (c ≡ new)
  unfolding step
  step-cell cell entry begin =
      let open_cell : leb def.nr_max offset ≡ false = ground arith in rw open_cell (inl refl)
  step-cell cell entry (asking old rsvd) = elim (Bool-cases (is_taken def rsvd new)) [
    | inl taken ↦ rw taken (inl refl)
    | inr free ↦
        rw free
          (elim (Bool-cases (cell == rsvd)) [ inl e ↦ rw e (inr refl) | inr e ↦ rw e (inl refl) ])
  ]
  step-cell cell entry (reserved old got) = elim (Bool-cases (got == new)) [
    | inl mine ↦ elim (Bool-cases (eilvt_entry_is_changeable def old new)) [
      | inl e ↦ rw (mine, e) (inl refl)
      | inr e ↦ rw (mine, e) (inl refl)
    ]
    | inr other ↦ rw other (inl refl)
  ]
  step-cell cell entry (returned status) = inl refl

  abbrev pub Advanced : (first cell entry : ℕ) → Pc → Type 0
  Advanced first cell entry pc =
      let v = step def offset new cell entry pc in
      OnTrack first v.cell v.entry v.pc
      × (rank v.cell v.pc + 1 ≤ rank cell pc ⊎ rank v.cell v.pc ≡ 0)

  -- A turn brings the processor on.
  step-Advanced :
      (first cell entry : ℕ) (pc : Pc)
      → is_taken def cell new ≡ false
      → OnTrack first cell entry pc
      → Advanced first cell entry pc
  unfolding step
  step-Advanced first cell entry begin free h =
      let open_cell : leb def.nr_max offset ≡ false = ground arith in
      rw open_cell (
        (h, h, free, inl refl),
        elim (Bool-cases (cell == new)) [
          | inl e ↦ rw e (inl (omega arith))
          | inr e ↦ rw e (inl (omega arith))
        ],
      )
  step-Advanced first cell entry (asking old rsvd) free (he, ho, hr, hc) =
      elim (Bool-cases (cell == new)) [
        | inl hit ↦ rw (hr, hit) ((he, ho, refl), inl (omega arith))
        | inr miss ↦
            let fresh : (cell == rsvd) ≡ true = ground arith in
            let own : (new == new) ≡ true = ground arith in
            rw (hr, miss, fresh, own) ((he, ho, free, inr refl), inl (omega arith))
      ]
  step-Advanced first cell entry (reserved old got) free (he, ho, hg) =
      let mine : (got == new) ≡ true = ground arith in
      elim (Bool-cases (eilvt_entry_is_changeable def old new)) [
        | inl e ↦
            let e' : eilvt_entry_is_changeable def first new ≡ true = rw (sym ho) e in
            rw (mine, e, e') ((refl, refl), inr refl)
        | inr e ↦
            let e' : eilvt_entry_is_changeable def first new ≡ false = rw (sym ho) e in
            rw (mine, e, e') ((he, refl), inr refl)
      ]
  step-Advanced first cell entry (returned status) free h = (h, inr refl)

  -- The turn of another processor.
  OnTrack-step :
      (first cell cell' entry : ℕ) (pc : Pc)
      → (cell' ≡ cell) ⊎ (cell' ≡ new)
      → OnTrack first cell entry pc
      → OnTrack first cell' entry pc × (rank cell' pc ≤ rank cell pc)
  OnTrack-step first cell cell' entry begin c h = (h, omega arith)
  OnTrack-step first cell cell' entry (asking old rsvd) c (he, ho, hr, hc) =
      ((he, ho, hr, ground arith), ground arith)
  OnTrack-step first cell cell' entry (reserved old got) c h = (h, omega arith)
  OnTrack-step first cell cell' entry (returned status) c h = (h, omega arith)

  module _ (first : ℕ → ℕ) where
    abbrev pub request : ℕ → ℕ
    request i = new

    abbrev pub AllOnTrack : Cores → Type 0
    AllOnTrack s =
        (is_taken def s.cell new ≡ false)
        × ((i : ℕ) → OnTrack (first i) s.cell (s.entry i) (s.pc i))

    cell_free :
        (i : ℕ) (s : Cores)
        → AllOnTrack s
        → is_taken def (turn def offset request i s).cell new ≡ false
    unfolding turn
    cell_free i s h = elim (step-cell s.cell (s.entry i) (s.pc i)) [
      | inl e ↦ rw e h.0
      | inr e ↦ rw e taken_own
    ]

    turn-AllOnTrack : (i : ℕ) (s : Cores) → AllOnTrack s → AllOnTrack (turn def offset request i s)
    unfolding turn
    turn-AllOnTrack i s h = (
      cell_free i s h,
      λ j. elim (Bool-cases (j == i)) [
        | inl mine ↦
            let same_core : j ≡ i = ground arith in
            rw (mine, same_core) (step-Advanced (first i) s.cell (s.entry i) (s.pc i) h.0 (h.1 i)).0
        | inr other ↦
            rw other
              (OnTrack-step (first j) s.cell _ (s.entry j) (s.pc j)
                (step-cell s.cell (s.entry i) (s.pc i)) (h.1 j)).0
      ],
    )

    -- A turn of any processor takes a turn off what its own has to do, and adds none to another's.
    rank-turn :
        (i j : ℕ) (s : Cores)
        → AllOnTrack s
        → let t = turn def offset request i s in
          rank t.cell (t.pc j) ≤ rank s.cell (s.pc j) - (if j == i then 1 else 0)
    unfolding turn
    rank-turn i j s h = elim (Bool-cases (j == i)) [
      | inl mine ↦
          let same_core : j ≡ i = ground arith in
          rw (mine, same_core)
            (less (step-Advanced (first i) s.cell (s.entry i) (s.pc i) h.0 (h.1 i)).1)
      | inr other ↦ rw other (
          same_rank
            (OnTrack-step (first j) s.cell _ (s.entry j) (s.pc j)
              (step-cell s.cell (s.entry i) (s.pc i)) (h.1 j)).1)
    ]
      where
        less : {a b : ℕ} → (a + 1 ≤ b) ⊎ (a ≡ 0) → a ≤ b - 1
        less h = omega arith

        same_rank : {a b : ℕ} → a ≤ b → a ≤ b - 0
        same_rank h = omega arith

    -- Each turn counts.
    interleave-rank :
        (order : List ℕ) (j : ℕ) (s : Cores)
        → AllOnTrack s
        → let t = interleave def offset request order s in
          AllOnTrack t × (rank t.cell (t.pc j) ≤ rank s.cell (s.pc j) - turns j order)
    unfolding interleave
    interleave-rank [] j s h = (h, omega arith)
    interleave-rank (i ∷ rest) j s h =
        let more = interleave-rank rest j (turn def offset request i s) (turn-AllOnTrack i s h) in
        (more.0, omega (arith, more.1, rank-turn i j s h))

    -- A processor with no turn left to make has returned.
    rank-returned :
        (i cell entry : ℕ) (pc : Pc)
        → rank cell pc ≡ 0
        → OnTrack (first i) cell entry pc
        → (entry ≡ left_in (first i)) × (pc ≡ returned (outcome (first i)))
    rank-returned i cell entry begin e h = absurd (omega arith)
    rank-returned i cell entry (asking old rsvd) e h = absurd (ground arith)
    rank-returned i cell entry (reserved old got) e h = absurd (omega arith)
    rank-returned i cell entry (returned status) e h = (h.0, ap returned h.1)

-- However processors that ask for the same entry take turns, each has returned after four turns of
-- its own: 0, with the entry in its register, if that might be changed, else -EBUSY, with the
-- register as it was. The offset is in range and the cell not taken by another entry at the start.
pub interleave-returned :
    (def : EilvtDef) (offset new cell : ℕ) (entry : ℕ → ℕ) (order : List ℕ) (i : ℕ)
    → offset < def.nr_max
    → is_taken def cell new ≡ false
    → 4 ≤ turns i order
    → let s = interleave def offset (λ _. new) order (at_begin cell entry) in
      let changeable = eilvt_entry_is_changeable def (entry i) new in
      (s.pc i ≡ returned (if changeable then done else ebusy))
      × (s.entry i ≡ (if changeable then new else entry i))
interleave-returned def offset new cell entry order i in_range free enough =
    let run =
      interleave-rank def offset new in_range entry order i (at_begin cell entry)
        (free, λ _. refl) in
    let last =
      rank-returned def offset new in_range entry i _ _ _ (omega (arith, run.1)) (run.0.1 i) in
    (last.1, last.0)
