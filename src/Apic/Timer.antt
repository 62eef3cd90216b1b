-- ===== src/Apic/Timer.antt =====
-- The local APIC's timer in linux/arch/x86/kernel/apic/apic.c: `__setup_APIC_LVTT`,
-- `lapic_next_event`, `lapic_next_deadline`, `lapic_timer_shutdown`, the switch between periodic
-- and one-shot, and `local_apic_timer_interrupt` with the flag that zzzloop.c sets.
pub mod Shutdown
pub mod Portable
use resume_from_edk2_tooling.Base.{
  ℕ, ◌+◌, ◌*◌, ◌/◌, ◌%◌, ◌^◌, ◌==◌, Bool, true, false, not, ◌&&◌, ◌||◌, bit_and, bit_or,
  if◌then◌else◌, List, [], ◌∷◌,
}
use resume_from_edk2_tooling.Apic.Device.{
  Device, ApicDef, not32, lvtt, tdcr, tmict, lapic_is_integrated, only,
}

-- APIC_DIVISOR and TSC_DIVISOR of apic.c.
abbrev pub apic_divisor : ℕ
apic_divisor = 16

abbrev pub tsc_divisor : ℕ
tsc_divisor = 8

-- A clock event device: is it a dummy, and has it a handler?
pub record ClockEvent : Type 0 where
  pub is_dummy : Bool
  pub has_event_handler : Bool

module _ (d : Device) (def : ApicDef) where
  abbrev pub lvtt_value : (deadline integrated oneshot irqen : Bool) → ℕ
  lvtt_value deadline integrated oneshot irqen =
      let kind =
        if not oneshot
        then bit_or def.local_timer_vector def.lvt_timer_periodic
        else (if deadline
            then bit_or def.local_timer_vector def.lvt_timer_tscdeadline
            else def.local_timer_vector) in
      let based = if not integrated then bit_or kind def.timer_base_div else kind in
      if not irqen then bit_or based def.lvt_masked else based

  abbrev pub divided : ℕ → ℕ
  divided tmp_value =
      bit_or (bit_and tmp_value (not32 (bit_or def.tdr_div_1 def.tdr_div_tmbase))) def.tdr_div_16

  -- `deadline` is boot_cpu_has(X86_FEATURE_TSC_DEADLINE_TIMER).
  unfoldable pub setup_apic_lvtt :
      (deadline : Bool) → (clocks : ℕ) → (oneshot irqen : Bool) → d.State → d.State
  setup_apic_lvtt deadline clocks oneshot irqen s =
      let value = lvtt_value deadline (lapic_is_integrated d def s) oneshot irqen in
      let armed = d.write lvtt value s in
      let paced = d.write tdcr (divided (d.read tdcr armed)) armed in
      if not (bit_and value def.lvt_timer_tscdeadline == 0)
      then armed
      else (if not oneshot then d.write tmict (clocks / apic_divisor) paced else paced)

  unfoldable pub lapic_next_event : (delta : ℕ) → d.State → d.State
  lapic_next_event delta s = d.write tmict (delta % 2 ^ 32) s

  unfoldable pub lapic_timer_shutdown : ClockEvent → d.State → d.State
  lapic_timer_shutdown evt s =
      let v = bit_or (d.read lvtt s) (bit_or def.lvt_masked def.local_timer_vector) in
      if evt.is_dummy then s else d.write tmict 0 (d.write lvtt v s)

  unfoldable pub lapic_timer_set_periodic_oneshot :
      (deadline : Bool)
      → (lapic_timer_period : ℕ) → ClockEvent
      → (oneshot : Bool) → d.State
      → d.State
  lapic_timer_set_periodic_oneshot deadline lapic_timer_period evt oneshot s =
      if evt.is_dummy then s else setup_apic_lvtt deadline lapic_timer_period oneshot true s

  abbrev pub lapic_timer_set_periodic :
      (deadline : Bool) → (lapic_timer_period : ℕ) → ClockEvent → d.State → d.State
  lapic_timer_set_periodic deadline lapic_timer_period evt s =
      lapic_timer_set_periodic_oneshot deadline lapic_timer_period evt false s

  abbrev pub lapic_timer_set_oneshot :
      (deadline : Bool) → (lapic_timer_period : ℕ) → ClockEvent → d.State → d.State
  lapic_timer_set_oneshot deadline lapic_timer_period evt s =
      lapic_timer_set_periodic_oneshot deadline lapic_timer_period evt true s

-- The value that `lapic_next_deadline` writes to MSR_IA32_TSC_DEADLINE, a 64-bit number.
abbrev pub lapic_next_deadline : (delta tsc : ℕ) → ℕ
lapic_next_deadline delta tsc = (tsc + delta * tsc_divisor) % 2 ^ 64

-- What the interrupt does besides the registers. What `evt->event_handler`, which is the kernel's,
-- does to them is the argument `handler` below.
pub data Note : Type 0 where
  print_jiffies : ℕ → Note
  print_spurious : Note
  inc_irq_stat : Note
  event_handler : Note

module _ (d : Device) (def : ApicDef) where
  abbrev pub debug_line : (apic_zzz_debug_flag jiffies : ℕ) → List Note → List Note
  debug_line apic_zzz_debug_flag jiffies rest =
      if not (apic_zzz_debug_flag == 0) && jiffies % 125 == 0
      then print_jiffies jiffies ∷ rest
      else rest

  unfoldable pub local_apic_timer_interrupt :
      (handler : d.State → d.State)
      → (apic_zzz_debug_flag jiffies : ℕ) → ClockEvent
      → d.State
      → List Note × d.State
  local_apic_timer_interrupt handler apic_zzz_debug_flag jiffies evt s =
      if not evt.has_event_handler
      then (
        debug_line apic_zzz_debug_flag jiffies (print_spurious ∷ []),
        lapic_timer_shutdown d def evt s,
      )
      else (debug_line apic_zzz_debug_flag jiffies (inc_irq_stat ∷ event_handler ∷ []), handler s)

  -- With `ack_apic_irq` for the end-of-interrupt; the trace points are left out.
  unfoldable pub sysvec_apic_timer_interrupt :
      (ack_apic_irq handler : d.State → d.State)
      → (apic_zzz_debug_flag jiffies : ℕ) → ClockEvent
      → d.State
      → List Note × d.State
  sysvec_apic_timer_interrupt ack_apic_irq handler apic_zzz_debug_flag jiffies evt s =
      local_apic_timer_interrupt handler apic_zzz_debug_flag jiffies evt (ack_apic_irq s)
