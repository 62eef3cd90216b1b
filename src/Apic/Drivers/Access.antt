-- ===== src/Apic/Drivers/Access.antt =====
-- What a register reads as after a write, through the MSRs and through memory.
use resume_from_edk2_tooling.Base.{
  ap, ◌+◌, ℕ, ◌-◌, ◌/◌, ◌%◌, ◌^◌, ◌<◌, ◌≡◌, refl, ◌∙◌, inl, inr, true, false, not, ◌&&◌, arith,
  ◌==◌, if◌then◌else◌, Bool-cases,
}
use native.Mathlib.Nat.{mod-eq_of_lt}
use resume_from_edk2_tooling.Apic.Device.{Holds, Reg, same, dfr}
use resume_from_edk2_tooling.Apic.Drivers.{
  mem_driver, Bus, Layout, msr_driver, msr_of, is_dropped, native_apic_msr_read,
  native_apic_msr_write,
}

-- Memory and MSRs keep what is written, and nothing else changes.
pub record Keeps (b : Bus) : Type 0 where
  pub memory :
      (p q v : ℕ) (s : b.State) → b.load p (b.store q v s) ≡ (if p == q then v else b.load p s)
  pub msrs :
      (p q v : ℕ) (s : b.State) → b.rdmsr p (b.wrmsr q v s) ≡ (if p == q then v else b.rdmsr p s)

module _ (b : Bus) (l : Layout) where
  -- Two registers have the same MSR just if they are the same.
  abbrev pub Apart : Reg → Reg → Type 0
  Apart r q = (l.offset r / 16 == l.offset q / 16) ≡ same r q

  msr_of-same :
      (r q : Reg) → Apart r q → (msr_of b l (l.offset r) == msr_of b l (l.offset q)) ≡ same r q
  msr_of-same r q h =
      let cancelled : (msr_of b l (l.offset r) == msr_of b l (l.offset q))
          ≡ (l.offset r / 16 == l.offset q / 16) =
        ground arith in
      cancelled ∙ h

  kept :
      (r q : Reg) (v : ℕ) (s : b.State)
      → Keeps b
      → Apart r q
      → v < 2 ^ 32
      → is_dropped b l q ≡ false
      → b.rdmsr (msr_of b l (l.offset r)) (b.wrmsr (msr_of b l (l.offset q)) v s) % 2 ^ 32
        ≡ (if same r q && true then v else b.rdmsr (msr_of b l (l.offset r)) s % 2 ^ 32)
  kept r q v s keeps apart h open_q =
      let word : v % 2 ^ 32 ≡ v = mod-eq_of_lt h in
      rw (keeps.msrs (msr_of b l (l.offset r)) (msr_of b l (l.offset q)) v s, msr_of-same r q apart)
        (elim (Bool-cases (same r q)) [
          | inl same_reg ↦ rw same_reg word
          | inr other ↦ rw other refl
        ])

  -- Through the MSRs, reading any register after a 32-bit number was written to any register gives
  -- all ones for DFR; else the number, if the register is the one written and not one of DFR,
  -- ID, LDR and LVR, for which the write is left out; else what was read before. The MSRs keep what
  -- is written, and the two registers have the same MSR just if they are the same.
  pub msr_driver-read :
      (r q : Reg) (v : ℕ) (s : b.State)
      → Keeps b
      → Apart r q
      → v < 2 ^ 32
      → let d = msr_driver b l in
        d.read r (d.write q v s) ≡ (
          if same r dfr
          then 2 ^ 32 - 1
          else (if same r q && not (is_dropped b l q) then v else d.read r s))
  unfolding native_apic_msr_read native_apic_msr_write
  msr_driver-read r q v s keeps apart h = elim (Bool-cases (same r dfr)) [
    | inl flat ↦ simp flat refl
    | inr plain ↦ elim (Bool-cases (is_dropped b l q)) [
      | inl dropped ↦ elim (Bool-cases (same r q)) [
        | inl same_reg ↦ simp (plain, dropped, same_reg) refl
        | inr other ↦ simp (plain, dropped, other) refl
      ]
      | inr open_q ↦ simp (plain, open_q) (kept r q v s keeps apart h open_q)
    ]
  ]

  -- Through memory, a register holds what is written to it, if memory keeps what is written and no
  -- other register has its address: the drivers' clients may take it for a register.
  pub mem_driver-Holds :
      (r : Reg)
      → Keeps b
      → ((q : Reg) → (l.base + l.offset r == l.base + l.offset q) ≡ same r q)
      → Holds (mem_driver b l) r
  mem_driver-Holds r keeps apart q v s =
      keeps.memory (l.base + l.offset r) (l.base + l.offset q) v s
      ∙ ap (λ t. if t then v else b.load (l.base + l.offset r) s) (apart q)
