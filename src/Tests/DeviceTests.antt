-- ===== src/Tests/DeviceTests.antt =====
-- A local APIC whose registers are plain memory but for the version, with the constants that the
-- processor's manual documents.
use resume_from_edk2_tooling.Base.{
  ℕ, ◌+◌, ◌/◌, ◌%◌, ◌^◌, ◌≡◌, ◌<◌, ◌≤◌, refl, arith, true, false, not, ◌&&◌, if◌then◌else◌, bit_and,
  ◌==◌,
}
use resume_from_edk2_tooling.Apic.Device.{
  Reg, Device, ApicDef, same, lapic_get_maxlvt, lvr, spiv, irr, isr, not32, only, tmict,
}
use resume_from_edk2_tooling.Apic.Width.{DefFits}
use resume_from_edk2_tooling.Apic.Lvt.{lapic_shutdown}
use resume_from_edk2_tooling.Apic.Lvt.Masked.{HoldsLvt, IsMasked, lapic_shutdown-IsMasked}
use resume_from_edk2_tooling.Apic.Power.{PmState, Boot, lapic_suspend, lapic_resume}
use resume_from_edk2_tooling.Apic.Power.Restore.{HoldsAll, Agrees, lapic_resume-lapic_suspend}
use resume_from_edk2_tooling.Apic.Mode.{WireDef, extnmi_bsp}
use resume_from_edk2_tooling.Apic.Setup.{
  Hooks, Options, ready, setup_local_apic, set_lints, enable, before_clear,
}
use resume_from_edk2_tooling.Apic.Pending.{
  apic_pending_intr_clear, read_regs, weights, bitmap_empty, weight,
}
use resume_from_edk2_tooling.Apic.Pending.Rounds.{
  Retires, in_service, pending, weights_pos, apic_pending_intr_clear_enough, not-true,
}

-- The version register cannot be written.
abbrev pub board : Device
board = record {
  State = Reg → ℕ;
  read = λ r s. s r;
  write = λ q v s r. if not (same r lvr) && same r q then v else s r;
}

abbrev pub manual : ApicDef
manual = record {
  version_of = λ v. v % 256;
  is_integrated = λ v. not (bit_and v 0xf0 == 0);
  maxlvt_of = λ v. v / 2 ^ 16 % 256;
  lvt_masked = 2 ^ 16;
  lvt_timer_periodic = 2 ^ 17;
  lvt_timer_tscdeadline = 2 ^ 18;
  timer_base_div = 2 ^ 19;
  tdr_div_1 = 0xb;
  tdr_div_tmbase = 4;
  tdr_div_16 = 3;
  local_timer_vector = 0xec;
  error_apic_vector = 0xfe;
  spurious_apic_vector = 0xff;
  spiv_apic_enabled = 2 ^ 8;
  vector_mask = 0xff;
  apicbase_base = 0xfffff000;
  apicbase_enable = 2 ^ 11;
  x2apic_enable = 2 ^ 10;
}

pub manual-DefFits : DefFits manual
manual-DefFits = record {
  lvt_masked = omega arith;
  lvt_timer_periodic = omega arith;
  lvt_timer_tscdeadline = omega arith;
  timer_base_div = omega arith;
  tdr_div_16 = omega arith;
  local_timer_vector = omega arith;
  error_apic_vector = omega arith;
}

-- Seven entries; the version is 0x15 and every other register holds 5.
abbrev pub powered : Reg → ℕ
powered r = if same r lvr then 0x60015 else 5

abbrev pub wires : WireDef
wires = record {
  spiv_focus_disabled = 2 ^ 9;
  dm_extint = 0x700;
  dm_nmi = 0x400;
  lvt_level_trigger = 2 ^ 15;
}

board-HoldsLvt : HoldsLvt board
board-HoldsLvt = record {
  timer = λ q v s. refl;
  lint0 = λ q v s. refl;
  lint1 = λ q v s. refl;
  error = λ q v s. refl;
  counter = λ q v s. refl;
  thermal = λ q v s. refl;
  cmci = λ q v s. refl;
  spurious = λ q v s. refl;
}

pub board-HoldsAll : HoldsAll board
board-HoldsAll = record {
  holds_id = λ q v s. refl;
  holds_taskpri = λ q v s. refl;
  holds_ldr = λ q v s. refl;
  holds_dfr = λ q v s. refl;
  holds_spiv = λ q v s. refl;
  holds_lvtt = λ q v s. refl;
  holds_lvtpc = λ q v s. refl;
  holds_lvt0 = λ q v s. refl;
  holds_lvt1 = λ q v s. refl;
  holds_lvterr = λ q v s. refl;
  holds_tmict = λ q v s. refl;
  holds_tdcr = λ q v s. refl;
  holds_lvtthmr = λ q v s. refl;
  holds_lvtcmci = λ q v s. refl;
}

lapic_shutdown-IsMasked_example :
    IsMasked board manual
      (lapic_get_maxlvt board manual powered)
      (lapic_shutdown board manual true false true powered)
    × (bit_and (lapic_shutdown board manual true false true powered spiv) (2 ^ 8) ≡ 0)
lapic_shutdown-IsMasked_example =
    lapic_shutdown-IsMasked board manual powered board-HoldsLvt true false refl (ground arith)
      (omega arith)

abbrev pub empty_pm : PmState
empty_pm = record {
  active = true;
  apic_id = 0;
  apic_taskpri = 0;
  apic_ldr = 0;
  apic_dfr = 0;
  apic_spiv = 0;
  apic_lvtt = 0;
  apic_lvtpc = 0;
  apic_lvt0 = 0;
  apic_lvt1 = 0;
  apic_lvterr = 0;
  apic_tmict = 0;
  apic_tdcr = 0;
  apic_thmr = 0;
  apic_cmci = 0;
}

abbrev pub plain_boot : Boot
plain_boot = record { x2apic_mode = false; mapped = true; x86 = 6; mp_lapic_addr = 0xfee00000 }

-- What the power cut leaves: the version alone.
abbrev pub lost : Reg → ℕ
lost r = if same r lvr then 0x60015 else 0

lapic_resume-lapic_suspend_example :
    Agrees board manual powered
      (lapic_resume board manual plain_boot
        (lapic_suspend board manual plain_boot empty_pm powered).0
        0xfee00900
        lost).1
lapic_resume-lapic_suspend_example =
    lapic_resume-lapic_suspend board manual board-HoldsAll plain_boot empty_pm powered lost
      0xfee00900 refl refl

-- An end-of-interrupt that leaves nothing requested and nothing in service.
abbrev pub retire_all : (Reg → ℕ) → Reg → ℕ
retire_all s (irr n) = 0
retire_all s (isr n) = 0
retire_all s r = s r

none_le : (a b : ℕ) → a ≡ 0 → a ≤ b
none_le a b h = omega arith

none_lt : (a i w : ℕ) → a ≡ 0 → 1 ≤ w → a < i + w
none_lt a i w h p = omega arith

retire_all-none : (s : Reg → ℕ) → pending board (retire_all s) ≡ 0
unfolding read_regs weights weight
retire_all-none s = refl

retire_all-Retires : Retires board retire_all
retire_all-Retires s = (
  none_le (pending board (retire_all s)) (pending board s) (retire_all-none s),
  λ busy.
      none_lt (pending board (retire_all s)) (weights (read_regs board irr 8 s))
        (weights (read_regs board isr 8 s)) (retire_all-none s)
        (weights_pos board isr 8 s (not-true (bitmap_empty (read_regs board isr 8 s)) busy)),
)

apic_pending_intr_clear_enough_example :
    in_service board (apic_pending_intr_clear board retire_all powered) ≡ false
apic_pending_intr_clear_enough_example =
    apic_pending_intr_clear_enough board retire_all powered retire_all-Retires

-- A handler that programs the next event.
abbrev pub tick : (jiffies : ℕ) → (Reg → ℕ) → Reg → ℕ
tick j s = board.write tmict (1000 + j) s

abbrev pub hooks : Hooks board
hooks = record {
  apic_id_registered = λ s. true;
  init_apic_ldr = λ s. s;
  ack_apic_irq = retire_all;
  event_handler = tick;
  perf_events_lapic_init = λ s. s;
  cmci_recheck = λ s. s;
  disable_esr = false;
  tpri_mask = 0xff;
}

abbrev pub second_cpu : Options
second_cpu = record {
  disable_apic = false;
  cpu = 1;
  pic_mode = false;
  skip_ioapic_setup = false;
  apic_extnmi = extnmi_bsp;
}

-- What the set-up leaves.
abbrev pub set_up : Reg → ℕ
set_up = set_lints board manual wires hooks second_cpu (
    enable board manual wires hooks (
      apic_pending_intr_clear board retire_all (
        before_clear board manual wires hooks
          (board.write spiv (bit_and 5 (not32 (2 ^ 8))) powered))))

pub setting_up : setup_local_apic board manual wires hooks second_cpu powered ≡ ready set_up
unfolding setup_local_apic only
setting_up = refl
