-- ===== src/Zzzloop/Rate.antt =====
-- How often the timer of zzzloop.c counts.
use resume_from_edk2_tooling.Base.{ℕ, ◌+◌, ◌*◌, ◌%◌, ◌^◌, ◌≤◌, ◌<◌, ◌≡◌, arith, some}
use resume_from_edk2_tooling.Zzzloop.Timer.{
  Kernel, zzzloop_timer_handler, zzzloop_timer_start_proc_show, zzzloop_timer_del_proc_show,
  zzzloop_apic_flag_on_proc_show, zzzloop_apic_flag_off_proc_show, Step, pass, expire, read_start,
  read_del, read_on, read_off, Reachable, at_boot, after,
}

-- The count fits into the time since the boot, and the next one into the time until it expires.
abbrev pub Paced : (period boot : ℕ) → Kernel → Type 0
Paced period boot k =
    (k.zzzloop_counter * period + boot ≤ k.now)
    × ((e : ℕ) → k.timer ≡ some e → (k.zzzloop_counter + 1) * period + boot ≤ e)

some_inj : {a b : ℕ} → some a ≡ some b → a ≡ b
some_inj h = cc

times_le : (p a b : ℕ) → a ≤ b → a * p ≤ b * p
times_le p a b h = grind arith

wrap_le : (c : ℕ) → c % 2 ^ 64 ≤ c
wrap_le c = omega arith

next_time : (p c : ℕ) → (c + 1) * p ≡ c * p + p
next_time p c = grind arith

module _ (period boot : ℕ) where
  later : {k m : Kernel} → Step period k m → k.now ≤ m.now
  unfolding zzzloop_timer_handler zzzloop_timer_start_proc_show zzzloop_timer_del_proc_show
      zzzloop_apic_flag_on_proc_show zzzloop_apic_flag_off_proc_show
  later (pass k) = omega arith
  later (expire k e h p) = omega arith
  later (read_start k) = omega arith
  later (read_del k) = omega arith
  later (read_on k) = omega arith
  later (read_off k) = omega arith

  rate_kept :
      {k m : Kernel}
      → Step period k m
      → m.now + period < 2 ^ 64
      → Paced period boot k
      → Paced period boot m
  unfolding zzzloop_timer_handler zzzloop_timer_start_proc_show zzzloop_timer_del_proc_show
      zzzloop_apic_flag_on_proc_show zzzloop_apic_flag_off_proc_show
  rate_kept (pass k) small (now, due) = (omega arith, due)
  rate_kept (expire k e h p) small (now, due) =
      let wrapped : ℕ = (k.zzzloop_counter + 1) % 2 ^ 64 in
      let counted : wrapped * period ≤ (k.zzzloop_counter + 1) * period =
        times_le period wrapped (k.zzzloop_counter + 1) (wrap_le (k.zzzloop_counter + 1)) in
      (
        omega (arith, due e h, counted, p),
        λ f g. omega (arith, due e h, counted, p, some_inj g, next_time period wrapped),
      )
  rate_kept (read_start k) small (now, due) =
      (now, λ e h. omega (arith, now, some_inj h, next_time period k.zzzloop_counter, small))
  rate_kept (read_del k) small (now, due) = (now, λ e h. cc)
  rate_kept (read_on k) small (now, due) = (now, due)
  rate_kept (read_off k) small (now, due) = (now, due)

  -- In every state that is reached while the clock stays below 2 ^ 64 - period, whoever started or
  -- deleted the timer when, the counter times the period is at most the time since the boot, and a
  -- pending timer expires no sooner than the next count is due.
  pub counter_rate :
      {k : Kernel} → Reachable period boot k → k.now + period < 2 ^ 64 → Paced period boot k
  counter_rate at_boot small = (omega arith, λ e h. cc)
  counter_rate (after r s) small =
      rate_kept s small (counter_rate r (omega (arith, later s, small)))
