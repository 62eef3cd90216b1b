-- ===== src/Zzzloop/Task.antt =====
-- `zzzloop_main` and `zzzloop2_main` of linux/fs/proc/zzzloop.c, and the files that call them. The
-- straight code between two labels is one step. The firmware continues a task at a label.
use resume_from_edk2_tooling.Base.{
  ℕ, ◌+◌, Bool, true, List, [], ◌∷◌, ◌++◌, if◌then◌else◌, Option, none, some,
}

-- What the code sends out: bytes to port 0x402, lines of the kernel's log by the number or the
-- function that they name, and calls.
pub data Event : Type 0 where
  port : ℕ → Event
  entered : Event
  starting : Event
  after_continue : Event
  starting_second : Event
  after_continue_2 : Event
  before_verify : Event
  tsc_verify_tsc_adjust : Bool → Event
  after_verify : Event
  before_restore : Event
  tsc_restore_sched_clock_state : Event
  after_restore : Event

abbrev pub dbg_out_lnx1 : List Event
dbg_out_lnx1 = port 0x4c ∷ port 0x4e ∷ port 0x58 ∷ port 0x31 ∷ port 0x0d ∷ port 0x0a ∷ []

abbrev pub dbg_out_lnx2 : List Event
dbg_out_lnx2 = port 0x4c ∷ port 0x4e ∷ port 0x58 ∷ port 0x32 ∷ port 0x0d ∷ port 0x0a ∷ []

abbrev pub dbg_out_lnx3 : List Event
dbg_out_lnx3 = port 0x4c ∷ port 0x4e ∷ port 0x58 ∷ port 0x33 ∷ port 0x0d ∷ port 0x0a ∷ []

abbrev pub zzzloop_debugprint : List Event
zzzloop_debugprint = port 0x5a ∷ port 0x59 ∷ port 0x58 ∷ []

-- Where a task is: at the entry, in a loop, at the label behind that loop, or returned.
pub data Point : Type 0 where
  start spin resume spin_2 resume_2 returned : Point

-- A task with its local variables `run1` and `run2`.
pub record Task : Type 0 where
  pub point : Point
  pub run1 : Bool
  pub run2 : Bool

abbrev pub new_task : Task
new_task = record { point = start; run1 = true; run2 = true }

abbrev pub goto : Point → Task → Task
goto p t = record t { point = p }

abbrev pub Program : Type 0
Program = Point → Task → List Event × Task

unfoldable pub zzzloop_main : Program
zzzloop_main start t = (entered ∷ starting ∷ [], goto spin t)
zzzloop_main spin t = ([], if t.run1 then t else goto resume t)
zzzloop_main resume t = (
  dbg_out_lnx1
      ++ (after_continue ∷ dbg_out_lnx2)
      ++ (before_verify
          ∷ tsc_verify_tsc_adjust true
          ∷ after_verify
          ∷ before_restore
          ∷ tsc_restore_sched_clock_state
          ∷ after_restore
          ∷ []),
  goto returned t,
)
zzzloop_main _ t = ([], t)

unfoldable pub zzzloop2_main : Program
zzzloop2_main start t = (entered ∷ starting ∷ [], goto spin t)
zzzloop2_main spin t = ([], if t.run1 then t else goto resume t)
zzzloop2_main resume t =
    (dbg_out_lnx1 ++ (after_continue ∷ dbg_out_lnx2) ++ (starting_second ∷ []), goto spin_2 t)
zzzloop2_main spin_2 t = ([], if t.run2 then t else goto resume_2 t)
zzzloop2_main resume_2 t = (dbg_out_lnx3 ++ (after_continue_2 ∷ []), goto returned t)
zzzloop2_main returned t = ([], t)

-- What can happen to a task: its own next step, or the firmware sets its instruction pointer.
pub data Move : Type 0 where
  code : Move
  jump : Point → Move

unfoldable pub step : Program → Move → Task → List Event × Task
step p code t = p t.point t
step p (jump l) t = ([], goto l t)

-- A run: what was sent out, and the task then.
unfoldable pub play : Program → List Move → Task → List Event × Task
play p [] t = ([], t)
play p (m ∷ rest) t =
    let now = step p m t in let later = play p rest now.1 in (now.0 ++ later.0, later.1)

-- The lines of a /proc file: the text and the value of `i`.
pub data Line : Type 0 where
  test_zzzloop : ℕ → Line
  test_zzzloop2 : ℕ → Line

abbrev pub on_returned : Point → List Line → Option (List Line)
on_returned returned l = some l
on_returned _ l = none

-- What a read of /proc/zzzloop gives; `none` as long as `zzzloop_main` has not returned.
unfoldable pub zzzloop_proc_show : List Move → Option (List Line)
zzzloop_proc_show moves =
    let i : ℕ = 0 in
    on_returned (play zzzloop_main moves new_task).1.point
      (test_zzzloop i ∷ test_zzzloop (i + 1) ∷ [])

unfoldable pub zzzloop2_proc_show : List Move → Option (List Line)
zzzloop2_proc_show moves =
    let i : ℕ = 0 in
    on_returned (play zzzloop2_main moves new_task).1.point
      (test_zzzloop2 i ∷ test_zzzloop (i + 1) ∷ [])
