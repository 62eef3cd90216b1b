-- ===== src/Tests/EilvtTests.antt =====
-- An extended LVT entry reserved for a vector.
use resume_from_edk2_tooling.Base.{
  ℕ, ◌^◌, ◌≡◌, refl, arith, some, List, if◌then◌else◌, ◌≢◌, ◌∷◌, ◌==◌, Bool-cases, [], inl, inr,
}
use resume_from_edk2_tooling.Apic.Device.{Reg, eilvt}
use resume_from_edk2_tooling.Apic.Eilvt.{
  EilvtDef, eilvt_entry_is_changeable, vector_of, new_entry, Status, setup_apic_eilvt,
}
use resume_from_edk2_tooling.Apic.Eilvt.Cores.{interleave, turn, step, at_begin, Cores, returned}
use resume_from_edk2_tooling.Tests.DeviceTests.{board}
use resume_from_edk2_tooling.Apic.Eilvt.Agreement.{interleave-agree}
use resume_from_edk2_tooling.Apic.Eilvt.Serial.{interleave-setup_apic_eilvt}

abbrev eilvt_def : EilvtDef
eilvt_def = record { masked = 2 ^ 16; nr_max = 4 }

-- An empty cell, and vector 0xf9 for offset 1 of a device whose entry is masked.
abbrev masked_entries : Reg → ℕ
masked_entries r = 2 ^ 16

-- Processors 0 and 1 ask for vector 0xf9, and 2 for the same, masked; they take turns.
abbrev eilvt_requests : ℕ → ℕ
eilvt_requests i = if i == 2 then 0x100f9 else 0xf9

abbrev eilvt_order : List ℕ
eilvt_order = 0 ∷ 1 ∷ 0 ∷ 1 ∷ 0 ∷ 0 ∷ 1 ∷ 1 ∷ 1 ∷ []

abbrev eilvt_cores : Cores
unfolding interleave turn step eilvt_entry_is_changeable
eilvt_cores = interleave eilvt_def 1 eilvt_requests eilvt_order (at_begin 0 (λ _. 2 ^ 16))

eilvt_requests-named : (k : ℕ) → vector_of eilvt_def (eilvt_requests k) ≢ 0
eilvt_requests-named k = elim (Bool-cases (k == 2)) [
  | inl e ↦ rw e (λ h. absurd (omega arith))
  | inr e ↦ rw e (λ h. absurd (omega arith))
]

interleave-agree_example :
    (eilvt_cores.entry 0 ≡ 0xf9)
    × (eilvt_cores.entry 1 ≡ 0xf9)
    × (vector_of eilvt_def (eilvt_cores.entry 0) ≡ vector_of eilvt_def (eilvt_cores.entry 1))
    × (vector_of eilvt_def eilvt_cores.cell ≡ vector_of eilvt_def (eilvt_cores.entry 0))
unfolding interleave turn step eilvt_entry_is_changeable
interleave-agree_example =
    interleave-agree eilvt_def 1 0 (λ _. 2 ^ 16) eilvt_requests eilvt_order 0 1 (omega arith)
      (omega arith) eilvt_requests-named refl refl

interleave-setup_apic_eilvt_example :
    let s =
      interleave eilvt_def 1
        (λ _. new_entry eilvt_def 0xf9 0 0)
        eilvt_order
        (at_begin 0 (λ _. 2 ^ 16)) in
    (o : Status × ℕ × (Reg → ℕ)) × (setup_apic_eilvt eilvt_def board 2
        (λ _ c. c)
        1
        0xf9
        0
        0
        0
        masked_entries
      ≡ some o)
    × (s.pc 1 ≡ returned o.0)
    × (s.entry 1 ≡ o.2 (eilvt 1))
interleave-setup_apic_eilvt_example =
    interleave-setup_apic_eilvt board eilvt_def 0 1 0xf9 0 0 0 (λ _. masked_entries) eilvt_order 1
      (omega arith) (λ q v s. refl) (omega arith)
