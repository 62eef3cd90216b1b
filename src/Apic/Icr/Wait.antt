-- ===== src/Apic/Icr/Wait.antt =====
-- How long the wait for an idle interrupt command register lasts, and what it returns.
use resume_from_edk2_tooling.Base.{
  some, refl, true, ℕ, zero, suc, ◌+◌, ◌<◌, ◌≡◌, ◌≢◌, ◌⊎◌, inl, inr, arith, ◌==◌, bit_and, false,
  Bool-cases, subst,
}
use resume_from_edk2_tooling.Apic.Icr.{
  native_apic_wait_icr_idle, wait_loop, native_safe_apic_wait_icr_idle,
}

module _ (busy : ℕ) (icr : ℕ → ℕ) where
  abbrev pub Idle : ℕ → Type 0
  Idle k = bit_and (icr k) busy ≡ 0

  -- The wait has ended at the first idle read, or has given up after `limit` busy ones.
  abbrev pub Waited : ℕ → ℕ × ℕ → Type 0
  Waited limit r =
      ((r.0 ≡ 0) × (r.1 < limit) × Idle r.1 × ((k : ℕ) → k < r.1 → ¬ Idle k))
      ⊎ ((r.0 ≢ 0) × (r.1 ≡ limit) × ((k : ℕ) → k < limit → ¬ Idle k))

  one_more :
      (n : ℕ)
      → ((k : ℕ) → k < n → ¬ Idle k)
      → (bit_and (icr n) busy == 0) ≡ false
      → (k : ℕ) → k < n + 1
      → ¬ Idle k
  one_more n before now k h idle = elim (Bool-cases (k == n)) [
    | inl same ↦ ground (arith, now, idle, same)
    | inr other ↦ before k (ground (arith, h, other)) idle
  ]

  wait_loop-Waited :
      (left n : ℕ)
      → ((k : ℕ) → k < n → ¬ Idle k)
      → Waited (n + left + 1) (wait_loop busy icr left n)
  unfolding wait_loop
  wait_loop-Waited zero n before = elim (Bool-cases (bit_and (icr n) busy == 0)) [
    | inl idle ↦ rw idle (inl (ground (arith, idle), omega arith, ground (arith, idle), before))
    | inr now ↦
        rw now (
          inr (ground (arith, now), omega arith, λ k p. one_more n before now k (omega (arith, p))))
  ]
  wait_loop-Waited (suc left) n before = elim (Bool-cases (bit_and (icr n) busy == 0)) [
    | inl idle ↦ rw idle (inl (ground (arith, idle), omega arith, ground (arith, idle), before))
    | inr now ↦ rw now (
        subst (λ m. Waited m (wait_loop busy icr left (n + 1))) (omega arith)
          (wait_loop-Waited left (n + 1) (one_more n before now)))
  ]

  -- The wait for the interrupt command register ends after at most 1001 reads. It returns 0 with
  -- as many retries as reads that were busy before the first idle one, or a status that is not 0
  -- with 1001 retries if all of these reads were busy.
  pub native_safe_apic_wait_icr_idle-Waited : Waited 1001 (native_safe_apic_wait_icr_idle busy icr)
  native_safe_apic_wait_icr_idle-Waited = wait_loop-Waited 1000 0 (λ k h. absurd (omega arith))

  -- Where the read `n + k` is the first idle one from `n` on, `k + 1` rounds find it.
  native_apic_wait_icr_idle-Waited :
      (k n : ℕ)
      → Idle (n + k)
      → ((i : ℕ) → i < k → ¬ Idle (n + i))
      → native_apic_wait_icr_idle busy icr (suc k) n ≡ some (n + k)
  unfolding native_apic_wait_icr_idle
  native_apic_wait_icr_idle-Waited zero n idle before =
      let here : n + 0 ≡ n = omega arith in
      let now : (bit_and (icr n) busy == 0) ≡ true = ground (arith, subst Idle here idle) in
      rw (now, here) refl
  native_apic_wait_icr_idle-Waited (suc k) n idle before =
      let here : n + 0 ≡ n = omega arith in
      let now : (bit_and (icr n) busy == 0) ≡ false =
        ground (arith, subst (λ m. ¬ Idle m) here (before 0 (omega arith))) in
      let next : n + suc k ≡ n + 1 + k = omega arith in
      rw (now, next)
        (native_apic_wait_icr_idle-Waited k (n + 1) (subst Idle next idle)
          (λ i h. subst (λ m. ¬ Idle m) (shift i) (before (suc i) (omega (arith, h)))))
    where
      shift : (i : ℕ) → n + suc i ≡ n + 1 + i
      shift i = omega arith
