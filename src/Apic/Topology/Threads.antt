-- ===== src/Apic/Topology/Threads.antt =====
-- Which ids belong to a first thread, and that the DMI data are looked at once.
use resume_from_edk2_tooling.Base.{
  ℕ, ◌+◌, ◌-◌, ◌%◌, ◌^◌, ◌≤◌, ◌<◌, ◌≡◌, refl, ap, List, inl, inr, arith, ◌==◌, Bool-cases,
}
use native.Mathlib.Nat.{pow-le-pow_right, one-le-pow}
use resume_from_edk2_tooling.Base.Bits.{bit_and_low}
use resume_from_edk2_tooling.Apic.Topology.{
  apic_id_is_primary_thread, Multi, DmiSystemId, dmi_check_multi, apic_is_clustered_box,
}

small_power : (k : ℕ) → k < 32 → (2 ^ k ≤ 2 ^ 31) × (1 ≤ 2 ^ k)
small_power k h = (
  pow-le-pow_right {n = 2} (omega arith) {i = k} {j = 31} (omega arith),
  one-le-pow k 2 (omega arith),
)

-- If `fls` gives 1 for 1, and a place from 1 to 32 for the number of siblings: the first threads
-- are those whose id is a multiple of the power of two at the highest bit of that number.
pub apic_id_is_primary_thread-divides :
    (fls : ℕ → ℕ) (siblings apicid : ℕ)
    → fls 1 ≡ 1
    → 1 ≤ fls siblings
    → fls siblings ≤ 32
    → apic_id_is_primary_thread fls siblings apicid ≡ (apicid % 2 ^ (fls siblings - 1) == 0)
unfolding apic_id_is_primary_thread
apic_id_is_primary_thread-divides fls siblings apicid one low high =
    let k : ℕ = fls siblings - 1 in
    let small = small_power k (omega arith) in
    let shifted : 2 ^ k % 2 ^ 32 ≡ 2 ^ k = omega (arith, small.0) in
    let mask : (2 ^ k % 2 ^ 32 + 2 ^ 32 - 1) % 2 ^ 32 ≡ 2 ^ k - 1 =
      omega (arith, shifted, small.0, small.1) in
    elim (Bool-cases (siblings == 1)) [
      | inl single ↦
          let e : siblings ≡ 1 = ground (arith, single) in
          let whole : fls siblings - 1 ≡ 0 = omega (arith, ap fls e, one) in
          rw (single, whole) (ground arith)
      | inr several ↦ rw (several, mask, bit_and_low k apicid) refl
    ]

-- The answer stays, whatever the DMI data are later.
apic_is_clustered_box-once :
    (dmi_check_system dmi_check_system' : List DmiSystemId → Multi → Multi) (m : Multi)
    → let first = apic_is_clustered_box dmi_check_system m in
      (apic_is_clustered_box dmi_check_system' first.1).0 ≡ first.0
unfolding apic_is_clustered_box dmi_check_multi
apic_is_clustered_box-once dmi dmi' m = elim (Bool-cases m.multi_checked) [
  | inl done ↦ ground (arith, done)
  | inr new ↦ ground (arith, new)
]
