-- ===== src/Tests/SessionTests.antt =====
-- A session on the board of DeviceTests: a processor that is shut down while interrupts are on
-- their way.
use resume_from_edk2_tooling.Base.{
  ℕ, ◌*◌, ◌%◌, ◌^◌, ◌≡◌, refl, true, false, List, [], ◌∷◌, arith, bit_or,
}
use resume_from_edk2_tooling.Apic.Device.{
  Reg, Holds, lapic_get_maxlvt, lvtt, lvtthmr, lvtpc, lvt0, lvt1, lvterr, lvtcmci,
}
use resume_from_edk2_tooling.Apic.Connect.{EntryDef}
use resume_from_edk2_tooling.Apic.Timer.{ClockEvent}
use resume_from_edk2_tooling.Apic.Lvt.Silent.{Hardware, has_entry}
use resume_from_edk2_tooling.Apic.Session.{
  Action, Session, shutdown, suspend, timer_interrupt, error_interrupt, next_event,
}
use resume_from_edk2_tooling.Apic.Session.Silent.{LeavesTable, StaysSilent, shutdown-StaysSilent}
use resume_from_edk2_tooling.Tests.DeviceTests.{
  board, manual, wires, hooks, tick, powered, empty_pm, plain_boot, retire_all,
}
use resume_from_edk2_tooling.Tests.BootTests.{mainboard}

-- `SET_APIC_DELIVERY_MODE` on 32 bits.
abbrev lint_fields : EntryDef
lint_fields = record {
  mode_mask = 0x700;
  send_pending = 2 ^ 12;
  input_polarity = 2 ^ 13;
  remote_irr = 2 ^ 14;
  level_trigger = 2 ^ 15;
  set_delivery_mode = λ value mode. bit_or value (mode * 2 ^ 8) % 2 ^ 32;
  mode_extint = 7;
  mode_nmi = 4;
  sync_command = 0x88500;
}

abbrev start : Session (Reg → ℕ)
start = record {
  up = record {
    apic = powered;
    pm = empty_pm;
    phys_cpu_present_map = λ _. false;
    ioapic_disabled = false;
  };
  base = 0xfee00900;
}

abbrev timer_event : ClockEvent
timer_event = record { is_dummy = false; has_event_handler = false }

entry_holds : (n : ℕ) (r : Reg) → has_entry n r ≡ true → Holds board r
entry_holds n lvtt h = λ q v s. refl
entry_holds n lvt0 h = λ q v s. refl
entry_holds n lvt1 h = λ q v s. refl
entry_holds n lvterr h = λ q v s. refl
entry_holds n lvtpc h = λ q v s. refl
entry_holds n lvtthmr h = λ q v s. refl
entry_holds n lvtcmci h = λ q v s. refl
entry_holds n r h = absurd (ground (arith, h))

board-Hardware : Hardware board manual
board-Hardware = record {
  entries = entry_holds;
  spurious = λ q v s. refl;
  version = λ q v s. refl;
  mask_nonzero = omega arith;
  enable_fits = omega arith;
}

entry_retired : (n : ℕ) (r : Reg) (s : Reg → ℕ) → has_entry n r ≡ true → retire_all s r ≡ s r
entry_retired n lvtt s h = refl
entry_retired n lvt0 s h = refl
entry_retired n lvt1 s h = refl
entry_retired n lvterr s h = refl
entry_retired n lvtpc s h = refl
entry_retired n lvtthmr s h = refl
entry_retired n lvtcmci s h = refl
entry_retired n r s h = absurd (ground (arith, h))

retire_all-LeavesTable : (n : ℕ) → LeavesTable board manual board-Hardware n retire_all
retire_all-LeavesTable n = record {
  entries = entry_retired n;
  spurious = λ s. refl;
  version = λ s. refl;
}

-- The handler of DeviceTests programs the next event.
tick_entry : (n j : ℕ) (r : Reg) (s : Reg → ℕ) → has_entry n r ≡ true → tick j s r ≡ s r
tick_entry n j lvtt s h = refl
tick_entry n j lvt0 s h = refl
tick_entry n j lvt1 s h = refl
tick_entry n j lvterr s h = refl
tick_entry n j lvtpc s h = refl
tick_entry n j lvtthmr s h = refl
tick_entry n j lvtcmci s h = refl
tick_entry n j r s h = absurd (ground (arith, h))

tick-LeavesTable : (n j : ℕ) → LeavesTable board manual board-Hardware n (tick j)
tick-LeavesTable n j = record {
  entries = tick_entry n j;
  spurious = λ s. refl;
  version = λ s. refl;
}

-- A timer with a handler.
abbrev live_event : ClockEvent
live_event = record { is_dummy = false; has_event_handler = true }

abbrev on_their_way : List (Action (Reg → ℕ))
on_their_way =
    timer_interrupt 0 7 live_event
    ∷ timer_interrupt 0 8 timer_event
    ∷ error_interrupt 0
    ∷ next_event 1000
    ∷ suspend plain_boot
    ∷ []

shutdown-StaysSilent_example :
    StaysSilent board manual wires hooks mainboard lint_fields board-Hardware
      (lapic_get_maxlvt board manual powered)
      (shutdown true false true ∷ on_their_way)
      start
shutdown-StaysSilent_example =
    shutdown-StaysSilent board manual wires hooks mainboard lint_fields board-Hardware true false
      on_their_way start (retire_all-LeavesTable _) (λ j. tick-LeavesTable _ j) refl refl
