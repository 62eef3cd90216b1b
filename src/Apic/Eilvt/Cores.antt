-- ===== src/Apic/Eilvt/Cores.antt =====
-- Several processors in `setup_APIC_eilvt` of linux/arch/x86/kernel/apic/apic.c at once, for one
-- offset. They share the cell `eilvt_offsets[offset]`, and each has its own register; a turn of a
-- processor runs to the next access of the cell, `atomic_read` or `atomic_cmpxchg`, or to the end.
use resume_from_edk2_tooling.Base.{ℕ, ◌-◌, ◌^◌, not, List, [], ◌∷◌, leb, ◌==◌, if◌then◌else◌}
use resume_from_edk2_tooling.Apic.Eilvt.{
  EilvtDef, Status, done, einval, ebusy, eilvt_entry_is_changeable, is_taken,
}

-- Where a processor is, with its local variables: before the body of the loop, after the loop.
pub data Pc : Type 0 where
  begin : Pc
  asking : (old rsvd : ℕ) → Pc
  reserved : (old got : ℕ) → Pc
  returned : Status → Pc

-- What a processor sees: the shared cell, its own register and its place.
pub record View : Type 0 where
  pub cell : ℕ
  pub entry : ℕ
  pub pc : Pc

abbrev pub update {ℓ} : {A : Type ℓ} → (ℕ → A) → ℕ → A → ℕ → A
update f i v j = if j == i then v else f j

-- The cell, and the register and the place of each processor.
pub record Cores : Type 0 where
  pub cell : ℕ
  pub entry : ℕ → ℕ
  pub pc : ℕ → Pc

-- Every processor is about to call `setup_APIC_eilvt`.
abbrev pub at_begin : (cell : ℕ) → (entry : ℕ → ℕ) → Cores
at_begin cell entry = record { cell = cell; entry = entry; pc = λ _. begin }

module _ (def : EilvtDef) (offset : ℕ) where
  -- One turn of a processor that asks for `new`.
  unfoldable pub step : (new cell entry : ℕ) → Pc → View
  step new cell entry begin =
      if leb def.nr_max offset
      then record { cell = cell; entry = entry; pc = reserved entry (2 ^ 32 - 1) }
      else record { cell = cell; entry = entry; pc = asking entry cell }
  step new cell entry (asking old rsvd) =
      if is_taken def rsvd new
      then record { cell = cell; entry = entry; pc = reserved old rsvd }
      else record {
        cell = if cell == rsvd then new else cell;
        entry = entry;
        pc = if cell == new then reserved old new else asking old cell;
      }
  step new cell entry (reserved old got) =
      if not (got == new)
      then record { cell = cell; entry = entry; pc = returned einval }
      else if not (eilvt_entry_is_changeable def old new)
      then record { cell = cell; entry = entry; pc = returned ebusy }
      else record { cell = cell; entry = new; pc = returned done }
  step new cell entry (returned status) = record {
    cell = cell;
    entry = entry;
    pc = returned status;
  }

  -- `request i` is what processor `i` asks for.
  unfoldable pub turn : (request : ℕ → ℕ) → ℕ → Cores → Cores
  turn request i s =
      let v = step (request i) s.cell (s.entry i) (s.pc i) in
      record { cell = v.cell; entry = update s.entry i v.entry; pc = update s.pc i v.pc }

  -- The processors in the order in which they have their turns.
  unfoldable pub interleave : (request : ℕ → ℕ) → List ℕ → Cores → Cores
  interleave request [] s = s
  interleave request (i ∷ rest) s = interleave request rest (turn request i s)
