-- ===== src/Zzzloop/Files.antt =====
-- The /proc files of linux/fs/proc/zzzloop.c, `proc_zzzloop_init`.
use resume_from_edk2_tooling.Base.{ℕ, Option, List, [], ◌∷◌, ◌++◌}
use resume_from_edk2_tooling.Zzzloop.Task.{Move, Line, zzzloop_proc_show, zzzloop2_proc_show}
use resume_from_edk2_tooling.Zzzloop.Timer.{
  Kernel, zzzloop_timer_start_proc_show, zzzloop_timer_del_proc_show,
  zzzloop_apic_flag_on_proc_show, zzzloop_apic_flag_off_proc_show, Step, read_start, read_del,
  read_on, read_off,
}

-- The names under which the files are created.
pub data ProcName : Type 0 where
  zzzloop zzzloop2 zzzloop_timer_start zzzloop_timer_del : ProcName
  zzzloop_apic_flag_on zzzloop_apic_flag_off : ProcName

-- What a read of a file calls: a function that spins in a task, or one that changes the kernel's
-- state and returns.
pub data Show : Type 0 where
  spins : (List Move → Option (List Line)) → Show
  returns : (Kernel → Kernel) → Show

-- `proc_create_single` adds one file.
unfoldable pub proc_zzzloop_init : (period : ℕ) → List (ProcName × Show) → List (ProcName × Show)
proc_zzzloop_init period files =
    files
    ++ ((zzzloop, spins zzzloop_proc_show)
        ∷ (zzzloop2, spins zzzloop2_proc_show)
        ∷ (zzzloop_timer_start, returns (zzzloop_timer_start_proc_show period))
        ∷ (zzzloop_timer_del, returns zzzloop_timer_del_proc_show)
        ∷ (zzzloop_apic_flag_on, returns zzzloop_apic_flag_on_proc_show)
        ∷ (zzzloop_apic_flag_off, returns zzzloop_apic_flag_off_proc_show)
        ∷ [])

-- A file whose read returns makes one of the kernel's steps.
abbrev pub IsStep : (period : ℕ) → Show → Type 0
IsStep period (spins f) = Unit
IsStep period (returns f) = (k : Kernel) → Step period k (f k)

abbrev pub AllSteps : (period : ℕ) → List (ProcName × Show) → Type 0
AllSteps period [] = Unit
AllSteps period ((name, show) ∷ rest) = IsStep period show × AllSteps period rest

-- Whatever is read from the files that this module creates is a step of the kernel that the counter
-- and the timer are followed through.
pub proc_zzzloop_init-AllSteps : (period : ℕ) → AllSteps period (proc_zzzloop_init period [])
unfolding proc_zzzloop_init
proc_zzzloop_init-AllSteps period =
    (tt, (tt, (λ k. read_start k, (λ k. read_del k, (λ k. read_on k, (λ k. read_off k, tt))))))
