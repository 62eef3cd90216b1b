-- ===== src/Apic/Eilvt.antt =====
-- Extended LVT entries of AMD processors in linux/arch/x86/kernel/apic/apic.c:
-- `eilvt_entry_is_changeable`, `reserve_eilvt_offset` and `setup_APIC_eilvt`. Other processors
-- may change `eilvt_offsets[offset]` just before each `atomic_cmpxchg`: `noise` says how.
pub mod Agreement
pub mod Cores
pub mod Progress
pub mod Refused
pub mod Reserve
pub mod Serial
use resume_from_edk2_tooling.Base.{
  ℕ, zero, suc, ◌+◌, ◌-◌, ◌*◌, ◌^◌, Bool, true, false, not, ◌&&◌, ◌||◌, bit_and, bit_or, ◌==◌, leb,
  ltb, if◌then◌else◌, Option, none, some,
}
use resume_from_edk2_tooling.Apic.Device.{Reg, Device, not32, eilvt}

-- The constants of apicdef.h: APIC_EILVT_MASKED and APIC_EILVT_NR_MAX.
pub record EilvtDef : Type 0 where
  pub masked : ℕ
  pub nr_max : ℕ

pub data Status : Type 0 where
  done : Status
  einval : Status
  ebusy : Status

unfoldable pub on_reserved {ℓ} : {X : Type ℓ} → (ℕ × ℕ → X) → Option (ℕ × ℕ) → Option X
on_reserved f none = none
on_reserved f (some r) = some (f r)

module _ (def : EilvtDef) where
  abbrev pub vector_of : ℕ → ℕ
  vector_of entry = bit_and entry (not32 def.masked)

  unfoldable pub eilvt_entry_is_changeable : (old new : ℕ) → Bool
  eilvt_entry_is_changeable old new =
      not (bit_and old def.masked == 0) || new == def.masked || vector_of new == old

  -- May the cell that holds `rsvd` not be given the value `new`?
  abbrev pub is_taken : (rsvd new : ℕ) → Bool
  is_taken rsvd new =
      not (vector_of rsvd == 0) && not (eilvt_entry_is_changeable (vector_of rsvd) new)

  -- The do-while loop: what it returns, and the cell then. `none` means that the fuel ran out.
  unfoldable pub reserve_loop :
      (fuel : ℕ) → (noise : ℕ → ℕ → ℕ) → (cell rsvd new : ℕ) → Option (ℕ × ℕ)
  reserve_loop zero noise cell rsvd new = none
  reserve_loop (suc fuel) noise cell rsvd new =
      let seen = noise fuel cell in
      let left = if seen == rsvd then new else seen in
      let again = reserve_loop fuel noise left seen new in
      if is_taken rsvd new
      then some (rsvd, cell)
      else (if seen == new then some (new, left) else again)

  unfoldable pub reserve_eilvt_offset :
      (fuel : ℕ) → (noise : ℕ → ℕ → ℕ) → (offset cell new : ℕ) → Option (ℕ × ℕ)
  reserve_eilvt_offset fuel noise offset cell new =
      if leb def.nr_max offset
      then some (2 ^ 32 - 1, cell)
      else reserve_loop fuel noise cell cell new

  abbrev pub new_entry : (vector msg_type mask : ℕ) → ℕ
  new_entry vector msg_type mask = bit_or (bit_or (mask * 2 ^ 16) (msg_type * 2 ^ 8)) vector

  -- The rest of `setup_APIC_eilvt`, once an offset has been reserved.
  abbrev pub check_entry :
      (d : Device) → (offset new old : ℕ) → d.State → ℕ × ℕ → Status × ℕ × d.State
  check_entry d offset new old s (reserved, cell) =
      if not (reserved == new)
      then (einval, cell, s)
      else if not (eilvt_entry_is_changeable old new)
      then (ebusy, cell, s)
      else (done, cell, d.write (eilvt offset) new s)

  unfoldable pub setup_apic_eilvt :
      (d : Device)
      → (fuel : ℕ) (noise : ℕ → ℕ → ℕ) (offset vector msg_type mask : ℕ) → (cell : ℕ) → d.State
      → Option (Status × ℕ × d.State)
  setup_apic_eilvt d fuel noise offset vector msg_type mask cell s =
      let new = new_entry vector msg_type mask in
      let old = d.read (eilvt offset) s in
      on_reserved (check_entry d offset new old s) (reserve_eilvt_offset fuel noise offset cell new)
