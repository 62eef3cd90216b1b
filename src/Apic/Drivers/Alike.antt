-- ===== src/Apic/Drivers/Alike.antt =====
-- The two ways to the registers are interchangeable: an interface for a pair of drivers, and
-- memory and MSRs as an instance of it.
use resume_from_edk2_tooling.Base.{
  ℕ, ◌+◌, ◌^◌, ◌<◌, ◌≡◌, refl, sym, ap, ◌∙◌, subst, Bool, true, false, not, ◌&&◌, ◌==◌,
  if◌then◌else◌,
}
use resume_from_edk2_tooling.Apic.Device.{Device, Reg, same, dfr}
use resume_from_edk2_tooling.Apic.Drivers.{mem_driver, msr_driver, Bus, Layout, is_dropped}
use resume_from_edk2_tooling.Apic.Drivers.Access.{Keeps, Apart, msr_driver-read, mem_driver-Holds}

-- Every register but DFR reads the same 32-bit number through both.
pub record SameRegs (d e : Device) (s : d.State) (t : e.State) : Type 0 where
  pub reads : (r : Reg) → same r dfr ≡ false → d.read r s ≡ e.read r t
  pub narrow : (r : Reg) → same r dfr ≡ false → d.read r s < 2 ^ 32

-- Writing a 32-bit number to a register that both write keeps it so.
pub record Alike (d e : Device) (dropped : Reg → Bool) : Type 0 where
  pub write :
      (q : Reg) (v : ℕ) {s : d.State} {t : e.State}
      → dropped q ≡ false
      → v < 2 ^ 32
      → SameRegs d e s t
      → SameRegs d e (d.write q v s) (e.write q v t)

-- Of the four cases of `msr_driver-read` two are left.
read_open :
    (flat here gone : Bool) (n v w : ℕ)
    → flat ≡ false
    → gone ≡ false
    → (if flat then n else (if here && not gone then v else w)) ≡ (if here then v else w)
read_open false true false n v w p q = refl
read_open false true true n v w p q = cc
read_open false false gone n v w p q = refl
read_open true here gone n v w p q = cc

module _ (b c : Bus) (l : Layout) where
  -- Distinct registers have distinct addresses and distinct MSRs.
  pub record AreApart : Type 0 where
    pub addresses : (r q : Reg) → (l.base + l.offset r == l.base + l.offset q) ≡ same r q
    pub numbers : (r q : Reg) → Apart b l r q

  abbrev pub by_memory : Device
  by_memory = mem_driver b l

  abbrev pub by_msr : Device
  by_msr = msr_driver c l

  write-read :
      (r q : Reg) (v : ℕ) (s : b.State) (t : c.State)
      → Keeps b
      → Keeps c
      → AreApart
      → is_dropped c l q ≡ false
      → v < 2 ^ 32
      → same r dfr ≡ false
      → (by_memory.read r (by_memory.write q v s) ≡ (if same r q then v else by_memory.read r s))
        × (by_msr.read r (by_msr.write q v t) ≡ (if same r q then v else by_msr.read r t))
  write-read r q v s t kb kc apart open_q h plain = (
    mem_driver-Holds b l r kb (λ q'. apart.addresses r q') q v s,
    msr_driver-read c l r q v t kc (apart.numbers r q) h
        ∙ read_open (same r dfr) (same r q) (is_dropped c l q) _ _ _ plain open_q,
  )

  -- The driver for memory and the driver for MSRs are alike.
  pub mem_driver-Alike : Keeps b → Keeps c → AreApart → Alike by_memory by_msr (is_dropped c l)
  mem_driver-Alike kb kc apart = record {
    write = λ q v {s} {t} open_q h regs. record {
      reads = λ r plain.
          let w = write-read r q v s t kb kc apart open_q h plain in
          w.0 ∙ ap (λ x. if same r q then v else x) (regs.reads r plain) ∙ sym w.1;
      narrow = λ r plain.
          let w = write-read r q v s t kb kc apart open_q h plain in
          subst (λ x. x < 2 ^ 32) (sym w.0) (if_lt (same r q) h (regs.narrow r plain));
    };
  }
    where
      if_lt : (x : Bool) {m n : ℕ} → m < 2 ^ 32 → n < 2 ^ 32 → (if x then m else n) < 2 ^ 32
      if_lt true hm hn = hm
      if_lt false hm hn = hn
