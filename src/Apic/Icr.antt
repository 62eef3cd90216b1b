-- ===== src/Apic/Icr.antt =====
-- `native_safe_apic_wait_icr_idle` and `native_apic_wait_icr_idle` of linux/arch/x86/kernel/apic/apic.c. The APIC changes the
-- register by itself: `icr n` is what the n-th read of APIC_ICR gives.
pub mod Wait
use resume_from_edk2_tooling.Base.{
  Option, none, some, ℕ, zero, suc, ◌+◌, ◌==◌, bit_and, if◌then◌else◌,
}

-- `busy` is APIC_ICR_BUSY.
module _ (busy : ℕ) (icr : ℕ → ℕ) where
  -- The do-while loop with `timeout` at 1000 - `left` and `retries` counted so far, which is also
  -- the number of reads: the status, and what has been added to icr_read_retry_count.
  unfoldable pub wait_loop : (left retries : ℕ) → ℕ × ℕ
  wait_loop zero retries =
      let send_status = bit_and (icr retries) busy in
      if send_status == 0 then (send_status, retries) else (send_status, retries + 1)
  wait_loop (suc left) retries =
      let send_status = bit_and (icr retries) busy in
      let again = wait_loop left (retries + 1) in
      if send_status == 0 then (send_status, retries) else again

  abbrev pub native_safe_apic_wait_icr_idle : ℕ × ℕ
  native_safe_apic_wait_icr_idle = wait_loop 1000 0

  -- The loop without a bound, from read `n` on: the number of the read that shows an idle
  -- register; `none` means that the fuel ran out.
  unfoldable pub native_apic_wait_icr_idle : (fuel n : ℕ) → Option ℕ
  native_apic_wait_icr_idle zero n = none
  native_apic_wait_icr_idle (suc fuel) n =
      let later = native_apic_wait_icr_idle fuel (n + 1) in
      if bit_and (icr n) busy == 0 then some n else later
