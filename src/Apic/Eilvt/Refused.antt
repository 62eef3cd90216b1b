-- ===== src/Apic/Eilvt/Refused.antt =====
-- Processors that ask for an offset which another entry has taken are all refused.
use resume_from_edk2_tooling.Base.{
  ℕ, ◌-◌, ◌≤◌, ◌<◌, ◌≡◌, refl, ap, ◌∙◌, inl, inr, true, false, List, [], ◌∷◌, arith, leb, ◌==◌,
  if◌then◌else◌, Bool-cases,
}
use resume_from_edk2_tooling.Apic.Eilvt.{EilvtDef, einval, is_taken}
use resume_from_edk2_tooling.Apic.Eilvt.Cores.{
  Pc, begin, asking, reserved, returned, Cores, step, turn, interleave, at_begin,
}
use resume_from_edk2_tooling.Apic.Eilvt.Progress.{turns, taken_own}

module _ (def : EilvtDef) (offset new held : ℕ) (in_range : offset < def.nr_max)
    (taken : is_taken def held new ≡ true) where
  -- What holds of a processor whose register holds `first`, while the cell holds `held`.
  abbrev pub Waiting : (first entry : ℕ) → Pc → Type 0
  Waiting first entry begin = entry ≡ first
  Waiting first entry (asking old rsvd) = (entry ≡ first) × (rsvd ≡ held)
  Waiting first entry (reserved old got) = (entry ≡ first) × (got ≡ held)
  Waiting first entry (returned status) = (entry ≡ first) × (status ≡ einval)

  -- How many turns are left.
  abbrev pub left : Pc → ℕ
  left begin = 3
  left (asking old rsvd) = 2
  left (reserved old got) = 1
  left (returned status) = 0

  pub held_other : (held == new) ≡ false
  held_other = elim (Bool-cases (held == new)) [
    | inr e ↦ e
    | inl e ↦
        let same : held ≡ new = ground arith in
        absurd
          (ground (arith, taken_own def offset new in_range, ap (λ x. is_taken def x new) same))
  ]

  step-Waiting :
      (first cell entry : ℕ) (pc : Pc)
      → cell ≡ held
      → Waiting first entry pc
      → let v = step def offset new cell entry pc in
        (v.cell ≡ held) × Waiting first v.entry v.pc × (left v.pc ≤ left pc - 1)
  unfolding step
  step-Waiting first cell entry begin c h =
      let open_cell : leb def.nr_max offset ≡ false = ground arith in
      simp open_cell (c, (h, c), omega arith)
  step-Waiting first cell entry (asking old rsvd) c (h, e) =
      let refused : is_taken def rsvd new ≡ true = ap (λ x. is_taken def x new) e ∙ taken in
      simp refused (c, (h, e), omega arith)
  step-Waiting first cell entry (reserved old got) c (h, e) =
      let other : (got == new) ≡ false = ap (λ x. x == new) e ∙ held_other in
      simp other (c, (h, refl), omega arith)
  step-Waiting first cell entry (returned status) c h = (c, h, omega arith)

  module _ (first : ℕ → ℕ) where
    pub record AllWaiting (s : Cores) : Type 0 where
      pub kept : s.cell ≡ held
      pub each : (i : ℕ) → Waiting (first i) (s.entry i) (s.pc i)

    turn-AllWaiting :
        (i : ℕ) (s : Cores) → AllWaiting s → AllWaiting (turn def offset (λ _. new) i s)
    unfolding turn
    turn-AllWaiting i s h =
        let now = step-Waiting (first i) s.cell (s.entry i) (s.pc i) h.kept (h.each i) in
        record {
          kept = now.0;
          each = λ j. elim (Bool-cases (j == i)) [
            | inl mine ↦ let same_core : j ≡ i = ground arith in rw (mine, same_core) now.1
            | inr other ↦ rw other (h.each j)
          ];
        }

    left-turn :
        (i j : ℕ) (s : Cores)
        → AllWaiting s
        → left ((turn def offset (λ _. new) i s).pc j) ≤ left (s.pc j) - (if j == i then 1 else 0)
    unfolding turn
    left-turn i j s h = elim (Bool-cases (j == i)) [
      | inl mine ↦
          let same_core : j ≡ i = ground arith in
          rw (mine, same_core)
            (step-Waiting (first i) s.cell (s.entry i) (s.pc i) h.kept (h.each i)).2
      | inr other ↦ rw other (omega arith)
    ]

    interleave-AllWaiting :
        (order : List ℕ) (j : ℕ) (s : Cores)
        → AllWaiting s
        → let t = interleave def offset (λ _. new) order s in
          AllWaiting t × (left (t.pc j) ≤ left (s.pc j) - turns j order)
    unfolding interleave
    interleave-AllWaiting [] j s h = (h, omega arith)
    interleave-AllWaiting (i ∷ rest) j s h =
        let more =
          interleave-AllWaiting rest j (turn def offset (λ _. new) i s) (turn-AllWaiting i s h) in
        (more.0, omega (arith, more.1, left-turn i j s h))

    left-returned :
        (i entry : ℕ) (pc : Pc)
        → left pc ≡ 0
        → Waiting (first i) entry pc
        → (pc ≡ returned einval) × (entry ≡ first i)
    left-returned i entry begin e h = absurd (omega arith)
    left-returned i entry (asking old rsvd) e h = absurd (omega arith)
    left-returned i entry (reserved old got) e h = absurd (omega arith)
    left-returned i entry (returned status) e h = (ap returned h.1, h.0)

-- Processors that ask for an offset that another entry has taken all return -EINVAL, after three
-- turns of their own, and change nothing. The offset is in range.
pub interleave-refused :
    (def : EilvtDef) (offset new cell : ℕ) (entry : ℕ → ℕ) (order : List ℕ) (i : ℕ)
    → offset < def.nr_max
    → is_taken def cell new ≡ true
    → 3 ≤ turns i order
    → let s = interleave def offset (λ _. new) order (at_begin cell entry) in
      (s.pc i ≡ returned einval) × (s.entry i ≡ entry i)
interleave-refused def offset new cell entry order i in_range taken enough =
    let run =
      interleave-AllWaiting def offset new cell in_range taken entry order i (at_begin cell entry)
        (record { kept = refl; each = λ _. refl }) in
    left-returned def offset new cell in_range taken entry i _ _ (omega (arith, run.1))
      (run.0.each i)
