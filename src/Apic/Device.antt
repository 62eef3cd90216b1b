-- ===== src/Apic/Device.antt =====
-- The local APIC as linux/arch/x86/kernel/apic/apic.c sees it: registers that `apic_read` and
-- `apic_write` reach through the driver in use, and the constants of the kernel's apicdef.h and
-- msr-index.h, which are not part of the repository. Both are arguments of the models.
use resume_from_edk2_tooling.Base.{
  ℕ, ◌+◌, ◌-◌, ◌*◌, ◌^◌, ◌≡◌, Bool, true, false, ◌==◌, if◌then◌else◌, List, [], ◌∷◌, refl, bit_or,
}

-- The registers by name; `eilvt n` is APIC_EILVTn(n), `irr n` and `isr n` the n-th word of a set.
pub data Reg : Type 0 where
  id lvr taskpri ldr dfr spiv esr icr icr2 : Reg
  lvtt lvtthmr lvtpc lvt0 lvt1 lvterr lvtcmci tmict tmcct tdcr : Reg
  eilvt irr isr : ℕ → Reg

-- A number for each register, by which they are compared; not its address.
abbrev pub number : Reg → ℕ
number id = 0
number lvr = 1
number taskpri = 2
number ldr = 3
number dfr = 4
number spiv = 5
number esr = 6
number icr = 7
number icr2 = 8
number lvtt = 9
number lvtthmr = 10
number lvtpc = 11
number lvt0 = 12
number lvt1 = 13
number lvterr = 14
number lvtcmci = 15
number tmict = 16
number tmcct = 17
number tdcr = 18
number (eilvt n) = 3 * n + 19
number (irr n) = 3 * n + 20
number (isr n) = 3 * n + 21

abbrev pub same : Reg → Reg → Bool
same a b = number a == number b

-- A local APIC and the driver that reads and writes it.
pub record Device : Type 1 where
  pub State : Type 0
  pub read : Reg → State → ℕ
  pub write : Reg → ℕ → State → State

-- Register `r` holds what was last written to it, and no write to another register changes it.
abbrev pub Holds : Device → Reg → Type 0
Holds d r =
    (q : Reg) (v : ℕ) (s : d.State)
    → d.read r (d.write q v s) ≡ (if same r q then v else d.read r s)

-- Register `r` is read only.
abbrev pub Fixed : Device → Reg → Type 0
Fixed d r = (q : Reg) (v : ℕ) (s : d.State) → d.read r (d.write q v s) ≡ d.read r s

-- Bits and fields of the registers, and vectors.
pub record ApicDef : Type 0 where
  pub version_of : ℕ → ℕ
  pub is_integrated : ℕ → Bool
  pub maxlvt_of : ℕ → ℕ
  pub lvt_masked : ℕ
  pub lvt_timer_periodic : ℕ
  pub lvt_timer_tscdeadline : ℕ
  pub timer_base_div : ℕ
  pub tdr_div_1 : ℕ
  pub tdr_div_tmbase : ℕ
  pub tdr_div_16 : ℕ
  pub local_timer_vector : ℕ
  pub error_apic_vector : ℕ
  pub spurious_apic_vector : ℕ
  pub spiv_apic_enabled : ℕ
  pub vector_mask : ℕ
  pub apicbase_base : ℕ
  pub apicbase_enable : ℕ
  pub x2apic_enable : ℕ

-- `~x` on an `unsigned int`.
abbrev pub not32 : ℕ → ℕ
not32 x = 2 ^ 32 - 1 - x

-- One statement after another.
abbrev pub run {ℓ} : {S : Type ℓ} → List (S → S) → S → S
run [] s = s
run (f ∷ rest) s = run rest (f s)

unfoldable pub only {ℓ} : {S : Type ℓ} → Bool → (S → S) → S → S
only b f s = if b then f s else s

module _ (d : Device) (def : ApicDef) where
  abbrev pub lapic_get_version : d.State → ℕ
  lapic_get_version s = def.version_of (d.read lvr s)

  abbrev pub lapic_is_integrated : d.State → Bool
  lapic_is_integrated s = def.is_integrated (lapic_get_version s)

  abbrev pub lapic_get_maxlvt : d.State → ℕ
  lapic_get_maxlvt s = if lapic_is_integrated s then def.maxlvt_of (d.read lvr s) else 2

  -- v = apic_read(r); apic_write(r, v | APIC_LVT_MASKED);
  unfoldable pub mask : Reg → d.State → d.State
  mask r s = d.write r (bit_or (d.read r s) def.lvt_masked) s

-- Reading after a statement that is made only if `b` holds.
pub read-only :
    (d : Device) (r : Reg) (b : Bool) (f : d.State → d.State) (s : d.State)
    → d.read r (only b f s) ≡ (if b then d.read r (f s) else d.read r s)
unfolding only
read-only d r true f s = refl
read-only d r false f s = refl

pub if_same {ℓ} : {A : Type ℓ} (b : Bool) (x : A) → (if b then x else x) ≡ x
if_same true x = refl
if_same false x = refl

pub read-mask :
    (d : Device) (def : ApicDef) (r : Reg)
    → Holds d r
    → (q : Reg) (s : d.State)
    → d.read r (mask d def q s)
      ≡ (if same r q then bit_or (d.read q s) def.lvt_masked else d.read r s)
unfolding mask
read-mask d def r h q s = h q _ s
