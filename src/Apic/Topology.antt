-- ===== src/Apic/Topology.antt =====
-- `apic_id_is_primary_thread` and the quirk of clustered boxes, `apic_is_clustered_box`, of
-- linux/arch/x86/kernel/apic/apic.c.
pub mod Threads
use Prim.Native.String.{String}
use resume_from_edk2_tooling.Base.{
  List, [], ◌∷◌, ℕ, ◌+◌, ◌-◌, ◌%◌, ◌^◌, bit_and, Bool, true, ◌==◌, if◌then◌else◌,
}

-- `fls` is the kernel's: the place of the highest bit that is set, from 1, and 0 for 0.
unfoldable pub apic_id_is_primary_thread : (fls : ℕ → ℕ) → (smp_num_siblings apicid : ℕ) → Bool
apic_id_is_primary_thread fls smp_num_siblings apicid =
    let mask = (2 ^ (fls smp_num_siblings - 1) % 2 ^ 32 + 2 ^ 32 - 1) % 2 ^ 32 in
    if smp_num_siblings == 1 then true else bit_and apicid mask == 0

-- `multi_checked` and `multi`.
pub record Multi : Type 0 where
  pub multi_checked : Bool
  pub multi : Bool

-- The fields of the DMI data that the table asks for, and an entry of such a table. The kernel
-- prints `ident`; a callback's number tells it whether to go on.
pub data DmiField : Type 0 where
  dmi_sys_vendor dmi_product_name : DmiField

pub record DmiSystemId : Type 0 where
  pub callback : Multi → ℕ × Multi
  pub ident : String
  pub matches : List (DmiField × String)

unfoldable pub set_multi : Multi → ℕ × Multi
set_multi m = (0, if m.multi then m else record m { multi = true })

-- The empty entry at the end is the list's end.
unfoldable pub multi_dmi_table : List DmiSystemId
multi_dmi_table =
    record {
      callback = set_multi;
      ident = "IBM System Summit2";
      matches = (dmi_sys_vendor, "IBM") ∷ (dmi_product_name, "Summit2") ∷ [];
    }
    ∷ []

-- `dmi_check_system` is the kernel's: it calls the callbacks of the entries that match.
module _ (dmi_check_system : List DmiSystemId → Multi → Multi) where
  unfoldable pub dmi_check_multi : Multi → Multi
  dmi_check_multi m =
      if m.multi_checked
      then m
      else record (dmi_check_system multi_dmi_table m) { multi_checked = true }

  unfoldable pub apic_is_clustered_box : Multi → Bool × Multi
  apic_is_clustered_box m = let checked = dmi_check_multi m in (checked.multi, checked)
