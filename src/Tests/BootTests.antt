-- ===== src/Tests/BootTests.antt =====
-- A second processor's APIC and the boot processor's, brought up.
use resume_from_edk2_tooling.Base.{
  ℕ, ◌≡◌, refl, true, false, some, bit_or, bit_and, ◌^◌, ◌&&◌, not, ◌==◌, ◌*◌, ◌%◌,
}
use resume_from_edk2_tooling.Apic.Device.{
  Reg, not32, lapic_is_integrated, lvt0, lvt1, lvterr, lvr, esr, spiv, only,
}
use resume_from_edk2_tooling.Apic.Mode.{extnmi_bsp, symmetric_io, apic_intr_mode_init}
use resume_from_edk2_tooling.Apic.Power.{lapic_suspend, lapic_resume}
use resume_from_edk2_tooling.Apic.Power.Restore.{Agrees}
use resume_from_edk2_tooling.Apic.Setup.{
  Options, lapic_setup_esr, setup_local_apic, set_lints, enable, before_clear,
}
use resume_from_edk2_tooling.Apic.Setup.Entries.{lint1_of}
use resume_from_edk2_tooling.Apic.Pending.{
  rounds, apic_check_and_ack, bitmap_empty, read_regs, repeat, weights, weight,
  apic_pending_intr_clear,
}
use resume_from_edk2_tooling.Apic.Bringup.{
  Board, Up, end_local_apic_setup, apic_ap_setup, bsp_setup, make_calls,
}
use resume_from_edk2_tooling.Apic.Bringup.Active.{apic_ap_setup-secondary, brought_up-Restored}
use resume_from_edk2_tooling.Tests.DeviceTests.{
  board, manual, powered, wires, hooks, second_cpu, set_up, empty_pm, plain_boot, lost,
  board-HoldsAll,
}

abbrev pub mainboard : Board board
mainboard = record {
  set_apic_id = λ n. n * 2 ^ 24 % 2 ^ 32;
  physid_set_mask_of_physid = λ p map n. n == p;
  default_setup_apic_routing = λ s. s;
  enable_io_apic = λ s. s;
  irq_remap_enable_fault_handling = λ s. s;
  setup_io_apic = λ s. s;
}

abbrev down : Up (Reg → ℕ)
down = record {
  apic = powered;
  pm = record empty_pm { active = false };
  phys_cpu_present_map = λ n. false;
  ioapic_disabled = false;
}

abbrev second_up : Up (Reg → ℕ)
second_up = record down {
  apic = board.write esr 0 (board.write lvterr 0xfe (board.write esr 0 set_up));
  pm = empty_pm;
}

bringing_up : apic_ap_setup board manual wires hooks mainboard second_cpu down ≡ some second_up
unfolding apic_ap_setup end_local_apic_setup lapic_setup_esr setup_local_apic only rounds
    apic_check_and_ack bitmap_empty read_regs repeat weights weight
bringing_up = refl

integrated_up : lapic_is_integrated board manual second_up.apic && not hooks.disable_esr ≡ true
unfolding rounds apic_check_and_ack bitmap_empty read_regs repeat weights weight
integrated_up = refl

apic_ap_setup-secondary_example :
    (second_up.apic lvt0 ≡ bit_or 0x700 (2 ^ 16))
    × (second_up.apic lvt1 ≡ lint1_of board manual wires hooks true extnmi_bsp)
    × (second_up.apic lvterr ≡ 0xfe)
    × (second_up.pm.active ≡ true)
apic_ap_setup-secondary_example =
    apic_ap_setup-secondary board manual wires hooks mainboard second_cpu down second_up
      (λ q v s. refl) (λ q v s. refl) (λ q v s. refl) (λ q v s. refl) refl refl integrated_up
      bringing_up

-- The first processor, in symmetric I/O mode.
abbrev first_cpu : Options
first_cpu = record second_cpu { cpu = 0 }

abbrev first_set_up : Reg → ℕ
first_set_up = set_lints board manual wires hooks first_cpu (
    enable board manual wires hooks (
      apic_pending_intr_clear board hooks.ack_apic_irq (
        before_clear board manual wires hooks
          (board.write spiv (bit_and 5 (not32 (2 ^ 8))) powered))))

abbrev boot_up : Up (Reg → ℕ)
boot_up = record down {
  apic = board.write esr 0 (board.write lvterr 0xfe (board.write esr 0 first_set_up));
  pm = empty_pm;
}

boot_run :
    make_calls board manual wires hooks mainboard first_cpu 0
      (apic_intr_mode_init false symmetric_io)
      down
    ≡ some boot_up
unfolding make_calls apic_intr_mode_init bsp_setup end_local_apic_setup lapic_setup_esr
    setup_local_apic only rounds apic_check_and_ack bitmap_empty read_regs repeat weights weight
boot_run = refl

same_version : lost lvr ≡ boot_up.apic lvr
unfolding rounds apic_check_and_ack bitmap_empty read_regs repeat weights weight
same_version = refl

brought_up-Restored_example :
    Agrees board manual boot_up.apic
      (lapic_resume board manual plain_boot
        (lapic_suspend board manual plain_boot boot_up.pm boot_up.apic).0
        0xfee00900
        lost).1
brought_up-Restored_example =
    brought_up-Restored board manual wires hooks mainboard board-HoldsAll first_cpu 0 symmetric_io
      false down boot_up plain_boot lost 0xfee00900 (λ e. cc) boot_run same_version
