-- ===== src/Apic/EnableIr.antt =====
-- `enable_IR_x2apic` of linux/arch/x86/kernel/apic/apic.c. The interrupt controllers and the
-- remapping unit belong to other files: their answers are arguments, and the calls are listed in
-- the order in which they are made.
use resume_from_edk2_tooling.Base.{
  ◌≡◌, arith, Bool, true, false, not, ◌&&◌, List, [], ◌∷◌, ◌++◌, if◌then◌else◌,
}
use resume_from_edk2_tooling.Base.Int.{ℤ, pos, negsuc}
use resume_from_edk2_tooling.Apic.X2apic.{Machine, Result, ok, panic, try_to_enable_x2apic}

pub data Call : Type 0 where
  irq_remapping_prepare : Call
  save_ioapic_entries : Call
  local_irq_save : Call
  mask_legacy_pic : Call
  mask_ioapic_entries : Call
  irq_remapping_enable : Call
  restore_ioapic_entries : Call
  restore_legacy_pic : Call
  local_irq_restore : Call

-- `is_x2apic_mode` compares with IRQ_REMAP_X2APIC_MODE.
pub record Platform : Type 0 where
  pub skip_ioapic_setup : Bool
  pub prepared : ℤ
  pub save_failed : Bool
  pub enabled : ℤ
  pub is_x2apic_mode : ℤ → Bool
  pub available : Bool

abbrev pub is_neg : ℤ → Bool
is_neg (pos n) = false
is_neg (negsuc n) = true

-- The remap mode, or an error code.
abbrev pub ir_stat : Platform → ℤ
ir_stat p = if is_neg p.prepared then p.prepared else p.enabled

abbrev pub when : Bool → List Call → List Call
when true l = l
when false l = []

-- What is done once the switch has been tried; a panic does not come back.
abbrev pub finish : Platform → Result → List Call
finish p panic = []
finish p (ok t) =
    when (is_neg (ir_stat p)) (restore_ioapic_entries ∷ [])
    ++ (restore_legacy_pic ∷ local_irq_restore ∷ [])

unfoldable pub enable_ir_x2apic : Platform → Machine → List Call × Result
enable_ir_x2apic p s =
    if p.skip_ioapic_setup
    then ([], ok s)
    else if is_neg p.prepared && not s.has_x2apic
    then (irq_remapping_prepare ∷ [], ok s)
    else if p.save_failed
    then (irq_remapping_prepare ∷ save_ioapic_entries ∷ [], ok s)
    else let tried = try_to_enable_x2apic (p.is_x2apic_mode (ir_stat p)) p.available s in
      (
        irq_remapping_prepare
            ∷ save_ioapic_entries
            ∷ local_irq_save
            ∷ mask_legacy_pic
            ∷ mask_ioapic_entries
            ∷ (when (not (is_neg p.prepared)) (irq_remapping_enable ∷ []) ++ finish p tried),
        tried,
      )

-- What the calls do to the interrupt lines.
pub record Lines : Type 0 where
  pub irqs_on : Bool
  pub pic_open : Bool
  pub ioapic_open : Bool

abbrev pub effect : Call → Lines → Lines
effect local_irq_save l = record l { irqs_on = false }
effect mask_legacy_pic l = record l { pic_open = false }
effect mask_ioapic_entries l = record l { ioapic_open = false }
effect restore_ioapic_entries l = record l { ioapic_open = true }
effect restore_legacy_pic l = record l { pic_open = true }
effect local_irq_restore l = record l { irqs_on = true }
effect _ l = l

abbrev pub replay : List Call → Lines → Lines
replay [] l = l
replay (c ∷ rest) l = replay rest (effect c l)

abbrev pub all_open : Lines
all_open = record { irqs_on = true; pic_open = true; ioapic_open = true }

-- Unless it panics, `enable_IR_x2apic` returns with interrupts on and the legacy controller open,
-- on every path; the I/O APIC is open if the remapping failed.
pub enable_ir_x2apic-Lines :
    (p : Platform) (s : Machine) {t : Machine}
    → (enable_ir_x2apic p s).1 ≡ ok t
    → ((replay (enable_ir_x2apic p s).0 all_open).irqs_on ≡ true)
      × ((replay (enable_ir_x2apic p s).0 all_open).pic_open ≡ true)
      × ((is_neg (ir_stat p) ≡ true)
          → (replay (enable_ir_x2apic p s).0 all_open).ioapic_open ≡ true)
unfolding enable_ir_x2apic
enable_ir_x2apic-Lines p s h = (ground arith, ground arith, λ e. ground arith)
