-- ===== src/Zzzloop/Timer.antt =====
-- The timer and the debug flag of linux/fs/proc/zzzloop.c. The kernel's clock and its timers are
-- `tick` and `expire`: a pending timer is called once, no sooner than it expires.
use resume_from_edk2_tooling.Base.{ℕ, ◌+◌, ◌%◌, ◌^◌, ◌≡◌, ◌≤◌, Option, none, some}

-- `now` counts jiffies and does not wrap, the `unsigned long jiffies` does; `timer` is when
-- `zzzloop_timer` expires, if it is pending.
pub record Kernel : Type 0 where
  pub now : ℕ
  pub zzzloop_counter : ℕ
  pub timer : Option ℕ
  pub apic_zzz_debug_flag : ℕ

abbrev pub jiffies : Kernel → ℕ
jiffies k = k.now % 2 ^ 64

-- `period` is msecs_to_jiffies(250).
module _ (period : ℕ) where
  -- mod_timer(&zzzloop_timer, jiffies + msecs_to_jiffies(250));
  abbrev pub mod_timer : Kernel → Kernel
  mod_timer k = record k { timer = some ((jiffies k + period) % 2 ^ 64) }

  unfoldable pub zzzloop_timer_handler : Kernel → Kernel
  zzzloop_timer_handler k =
      let armed = mod_timer k in record armed { zzzloop_counter = (k.zzzloop_counter + 1) % 2 ^ 64 }

  unfoldable pub zzzloop_timer_start_proc_show : Kernel → Kernel
  zzzloop_timer_start_proc_show k = mod_timer k

unfoldable pub zzzloop_timer_del_proc_show : Kernel → Kernel
zzzloop_timer_del_proc_show k = record k { timer = none }

unfoldable pub zzzloop_apic_flag_on_proc_show : Kernel → Kernel
zzzloop_apic_flag_on_proc_show k = record k { apic_zzz_debug_flag = 1 }

unfoldable pub zzzloop_apic_flag_off_proc_show : Kernel → Kernel
zzzloop_apic_flag_off_proc_show k = record k { apic_zzz_debug_flag = 0 }

abbrev pub tick : Kernel → Kernel
tick k = record k { now = k.now + 1 }

-- A timer that is called is no longer pending.
abbrev pub expired : Kernel → Kernel
expired k = record k { timer = none }

-- What can happen: time passes, the timer is called, or a /proc file is read.
pub data Step (period : ℕ) : Kernel → Kernel → Type 0 where
  pass : (k : Kernel) → Step period k (tick k)
  expire :
      (k : Kernel) (e : ℕ)
      → k.timer ≡ some e
      → e ≤ jiffies k
      → Step period k (zzzloop_timer_handler period (expired k))
  read_start : (k : Kernel) → Step period k (zzzloop_timer_start_proc_show period k)
  read_del : (k : Kernel) → Step period k (zzzloop_timer_del_proc_show k)
  read_on : (k : Kernel) → Step period k (zzzloop_apic_flag_on_proc_show k)
  read_off : (k : Kernel) → Step period k (zzzloop_apic_flag_off_proc_show k)

abbrev pub booted : ℕ → Kernel
booted boot = record { now = boot; zzzloop_counter = 0; timer = none; apic_zzz_debug_flag = 0 }

-- The states that are reached from a start at `boot`.
pub data Reachable (period boot : ℕ) : Kernel → Type 0 where
  at_boot : Reachable period boot (booted boot)
  after : {k m : Kernel} → Reachable period boot k → Step period k m → Reachable period boot m
