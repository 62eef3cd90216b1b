-- ===== src/Apic/Width.antt =====
-- The widths of the registers and variables of linux/arch/x86/kernel/apic/apic.c: `u32` for what
-- `apic_read` and `apic_write` carry. The models compute on ℕ; the laws of the types are here, and
-- Timer has the one of the timer's entry.
pub mod Timer
use resume_from_edk2_tooling.Base.{
  ℕ, ◌^◌, ◌<◌, Bool, true, false, bit_and, bit_or, arith, if◌then◌else◌,
}
use resume_from_edk2_tooling.Base.Bits.{bit_or-lt, bit_and-lt}
use resume_from_edk2_tooling.Apic.Device.{ApicDef, not32}

abbrev pub IsU32 : ℕ → Type 0
IsU32 v = v < 2 ^ 32

-- The constants that are put into registers have the types of the registers.
pub record DefFits (def : ApicDef) : Type 0 where
  pub lvt_masked : IsU32 def.lvt_masked
  pub lvt_timer_periodic : IsU32 def.lvt_timer_periodic
  pub lvt_timer_tscdeadline : IsU32 def.lvt_timer_tscdeadline
  pub timer_base_div : IsU32 def.timer_base_div
  pub tdr_div_16 : IsU32 def.tdr_div_16
  pub local_timer_vector : IsU32 def.local_timer_vector
  pub error_apic_vector : IsU32 def.error_apic_vector

pub bit_or-IsU32 : (a b : ℕ) → IsU32 a → IsU32 b → IsU32 (bit_or a b)
bit_or-IsU32 a b ha hb = bit_or-lt 32 a b ha hb

-- Clearing the bits of a mask on 32 bits.
pub clear-IsU32 : (a m : ℕ) → IsU32 (bit_and a (not32 m))
clear-IsU32 a m = bit_and-lt 32 a (not32 m) (omega arith)

pub if-IsU32 : (b : Bool) (x y : ℕ) → IsU32 x → IsU32 y → IsU32 (if b then x else y)
if-IsU32 true x y hx hy = hx
if-IsU32 false x y hx hy = hy
