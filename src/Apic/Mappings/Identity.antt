-- ===== src/Apic/Mappings/Identity.antt =====
-- What `init_apic_mappings` leaves in the variables of the boot processor.
use resume_from_edk2_tooling.Base.{
  ℕ, ◌≡◌, refl, sym, ap, ◌∙◌, subst, inl, inr, Bool, true, false, not, ◌&&◌, ◌||◌, Option, none,
  some, arith, if◌then◌else◌, Bool-cases,
}
use resume_from_edk2_tooling.Apic.Cpus.{holds}
use resume_from_edk2_tooling.Apic.X2apic.{register_lapic_address}
use resume_from_edk2_tooling.Apic.Deadline.{apic_validate_deadline_timer}
use resume_from_edk2_tooling.Apic.Mappings.{
  Mappings, Outside, read_apic_id, detect_init_apic, refresh, map_found, init_apic_mappings,
  apic_disable,
}

holds-some : (b : Option ℕ) (n : ℕ) → holds b n ≡ true → b ≡ some n
holds-some none n h = ground arith
holds-some (some a) n h = ap some (ground arith)

-- The id is up to date after a refresh, which leaves the driver and the address.
refresh-id :
    (o : Outside) (m : Mappings)
    → ((refresh o m).machine.boot_cpu_physical_apicid ≡ some (read_apic_id o (refresh o m)))
      × ((refresh o m).noop ≡ m.noop)
      × ((refresh o m).apic_phys ≡ m.apic_phys)
      × ((refresh o m).machine.mp_lapic_addr ≡ m.machine.mp_lapic_addr)
unfolding refresh
refresh-id o m = elim (Bool-cases (holds m.machine.boot_cpu_physical_apicid (read_apic_id o m))) [
  | inl same ↦ simp same (holds-some _ _ same, refl, refl, refl)
  | inr new ↦ simp new (refl, refl, refl, refl)
]

map_found-phys :
    (o : Outside) (m : Mappings)
    → ((map_found o m).noop ≡ m.noop)
      × ((map_found o m).apic_phys ≡ (map_found o m).machine.mp_lapic_addr)
unfolding map_found register_lapic_address
map_found-phys o m = elim (Bool-cases (not m.acpi_lapic && not m.smp_found_config)) [
  | inl bare ↦ simp bare (refl, refl)
  | inr known ↦ simp known (refl, refl)
]

-- The end of the function, after the search.
settled :
    (o : Outside) (x : Mappings) (n b : Bool) (p : ℕ)
    → x.noop ≡ n
    → x.apic_phys ≡ (if b then p else x.machine.mp_lapic_addr)
    → let r = refresh o x in
      (r.machine.boot_cpu_physical_apicid ≡ some (read_apic_id o r))
      × (r.noop ≡ n)
      × (r.apic_phys ≡ (if b then p else r.machine.mp_lapic_addr))
settled o x n b p driver phys =
    let k = refresh-id o x in
    (k.0, k.1 ∙ driver, k.2 ∙ phys ∙ ap (λ a. if b then p else a) (sym k.3))

-- No APIC can be found.
abbrev pub unreachable : Mappings → Bool
unreachable m = not m.machine.x2apic_mode && not m.smp_found_config && not m.machine.has_apic

-- The id is the one that is read; the driver and the address fit what was found.
abbrev pub IsKnown : Outside → Mappings → Mappings → Type 0
IsKnown o m r =
    (r.machine.boot_cpu_physical_apicid ≡ some (read_apic_id o r))
    × (r.noop ≡ m.noop || unreachable m)
    × (r.apic_phys
        ≡ (if m.machine.x2apic_mode || unreachable m then m.apic_phys else r.machine.mp_lapic_addr))

-- The search succeeded.
found-IsKnown :
    (o : Outside) (m x : Mappings)
    → m.machine.x2apic_mode || unreachable m ≡ false
    → x.noop ≡ m.noop
    → IsKnown o m (refresh o (map_found o x))
found-IsKnown o m x there driver =
    let placed = map_found-phys o x in
    let reached : unreachable m ≡ false = ground (arith, there) in
    let same : m.noop ≡ m.noop || unreachable m = ground (arith, reached) in
    settled o (map_found o x) _ _ m.apic_phys (placed.0 ∙ driver ∙ same) (rw there placed.1)

-- On every path the boot processor's id is afterwards the one that the driver in use reads; that
-- driver is the one that does nothing just if it was before or there is neither x2APIC mode, nor
-- a configuration, nor an APIC; and unless there is x2APIC mode or no APIC, the address of the
-- registers is the one found.
pub init_apic_mappings-IsKnown : (o : Outside) (m : Mappings) → IsKnown o m (init_apic_mappings o m)
unfolding init_apic_mappings detect_init_apic
init_apic_mappings-IsKnown o m =
    let checked : Mappings = record m {
      boot = (apic_validate_deadline_timer o.x86_match_cpu m.boot).1;
    } in
    elim (Bool-cases m.machine.x2apic_mode) [
      | inl on ↦
          let early : Mappings = record checked {
            machine = record (m.machine) {
              boot_cpu_physical_apicid = some (read_apic_id o checked);
            };
          } in
          let run : early ≡ init_apic_mappings o m = simp on refl in
          let skipped : m.machine.x2apic_mode || unreachable m ≡ true = ground (arith, on) in
          let same : m.noop ≡ m.noop || unreachable m = ground (arith, on) in
          subst (IsKnown o m) run (refl, same, rw skipped refl)
      | inr off ↦ elim (Bool-cases m.smp_found_config) [
        | inl found ↦
            let run : refresh o (map_found o checked) ≡ init_apic_mappings o m =
              simp (off, found) refl in
            subst (IsKnown o m) run (found-IsKnown o m checked (ground (arith, off, found)) refl)
        | inr alone ↦ elim (Bool-cases m.machine.has_apic) [
          | inr absent ↦
              let run : refresh o (apic_disable checked) ≡ init_apic_mappings o m =
                simp (off, alone, absent) refl in
              let lost : unreachable m ≡ true = ground (arith, off, alone, absent) in
              let skipped : m.machine.x2apic_mode || unreachable m ≡ true = ground (arith, lost) in
              let driver : true ≡ m.noop || unreachable m = ground (arith, lost) in
              subst (IsKnown o m) run
                (settled o (apic_disable checked) _ _ m.apic_phys driver (rw skipped refl))
          | inl there ↦
              let detected : Mappings = record checked {
                machine = record (m.machine) { mp_lapic_addr = o.default_phys_base };
              } in
              let run : refresh o (map_found o detected) ≡ init_apic_mappings o m =
                simp (off, alone, there) refl in
              subst (IsKnown o m) run (found-IsKnown o m detected (ground (arith, off, there)) refl)
        ]
      ]
    ]
