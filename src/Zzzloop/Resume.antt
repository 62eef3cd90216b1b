-- ===== src/Zzzloop/Resume.antt =====
-- A task of zzzloop.c stays in its loop until the firmware resumes it, and then runs to the end.
use resume_from_edk2_tooling.Base.{
  ℕ, zero, suc, ◌+◌, ◌≡◌, refl, true, List, [], ◌∷◌, ◌++◌, none, some, ap, ◌∙◌,
}
use resume_from_edk2_tooling.Zzzloop.Task.{
  Event, Point, spin, resume, spin_2, resume_2, returned, Task, new_task, goto, Program,
  zzzloop_main, zzzloop2_main, Move, code, jump, step, play, test_zzzloop, test_zzzloop2,
  zzzloop_proc_show, zzzloop2_proc_show, dbg_out_lnx1, dbg_out_lnx2, dbg_out_lnx3, port,
  on_returned, entered, starting, after_continue, before_verify, tsc_verify_tsc_adjust,
  after_verify, before_restore, tsc_restore_sched_clock_state, after_restore, starting_second,
  after_continue_2,
}

-- `n` steps of the task's own.
abbrev pub steps : ℕ → List Move
steps zero = []
steps (suc n) = code ∷ steps n

-- The bytes that a debugger sees on port 0x402.
abbrev pub port_bytes : List Event → List ℕ
port_bytes [] = []
port_bytes (port b ∷ rest) = b ∷ port_bytes rest
port_bytes (_ ∷ rest) = port_bytes rest

-- The text of the three debug lines.
abbrev pub lnx : ℕ → List ℕ
lnx n = 0x4c ∷ 0x4e ∷ 0x58 ∷ (0x30 + n) ∷ 0x0d ∷ 0x0a ∷ []

-- A task whose own step is silent and leads nowhere stays there, however many steps it makes.
pub play-wait :
    (p : Program) (t : Task) (n : ℕ) (rest : List Move)
    → p t.point t ≡ ([], t)
    → play p (steps n ++ rest) t ≡ play p rest t
unfolding play step
play-wait p t zero rest h = refl
play-wait p t (suc n) rest h = rw h (play-wait p t n rest h)

pub play-steps :
    (p : Program) (t : Task) (n : ℕ) → p t.point t ≡ ([], t) → play p (steps n) t ≡ ([], t)
unfolding play step
play-steps p t zero h = refl
play-steps p t (suc n) h = rw h (play-steps p t n h)

-- Where a task is after a run.
abbrev at : List Event × Task → Point
at r = r.1.point

main_waits :
    (n : ℕ)
    → play zzzloop_main (steps (suc n)) new_task ≡ (entered ∷ starting ∷ [], goto spin new_task)
unfolding play step zzzloop_main
main_waits n = rw (play-steps zzzloop_main (goto spin new_task) n refl) refl

main2_waits :
    (n : ℕ)
    → play zzzloop2_main (steps (suc n)) new_task ≡ (entered ∷ starting ∷ [], goto spin new_task)
unfolding play step zzzloop2_main
main2_waits n = rw (play-steps zzzloop2_main (goto spin new_task) n refl) refl

-- Without a jump of the firmware a read of either file has not returned after any number of steps.
pub proc_show_waits :
    (n : ℕ) → (zzzloop_proc_show (steps n) ≡ none) × (zzzloop2_proc_show (steps n) ≡ none)
unfolding zzzloop_proc_show zzzloop2_proc_show play
proc_show_waits zero = (refl, refl)
proc_show_waits (suc n) = (
  ap (λ r. on_returned (at r) (test_zzzloop 0 ∷ test_zzzloop 1 ∷ [])) (main_waits n),
  ap (λ r. on_returned (at r) (test_zzzloop2 0 ∷ test_zzzloop 1 ∷ [])) (main2_waits n),
)

-- All that a resumed task sends out.
abbrev main_events : List Event
main_events =
    entered
    ∷ starting
    ∷ (dbg_out_lnx1
        ++ (after_continue ∷ dbg_out_lnx2)
        ++ (before_verify
            ∷ tsc_verify_tsc_adjust true
            ∷ after_verify
            ∷ before_restore
            ∷ tsc_restore_sched_clock_state
            ∷ after_restore
            ∷ []))

abbrev main2_events : List Event
main2_events =
    entered ∷ starting ∷ (dbg_out_lnx1 ++ (after_continue ∷ dbg_out_lnx2) ++ (starting_second ∷ []))

main_resumed :
    (n m : ℕ)
    → play zzzloop_main (steps (suc n) ++ (jump resume ∷ steps (suc m))) new_task
      ≡ (main_events, goto returned new_task)
unfolding play step zzzloop_main
main_resumed n m =
    ap (λ r. (entered ∷ starting ∷ r.0, r.1))
      (play-wait zzzloop_main (goto spin new_task) n (jump resume ∷ steps (suc m)) refl
        ∙ ap (λ r. ((zzzloop_main resume new_task).0 ++ r.0, r.1))
            (play-steps zzzloop_main (goto returned new_task) m refl))

main2_resumed :
    (n m : ℕ)
    → play zzzloop2_main (steps (suc n) ++ (jump resume ∷ steps (suc m))) new_task
      ≡ (main2_events, goto spin_2 new_task)
unfolding play step zzzloop2_main
main2_resumed n m =
    ap (λ r. (entered ∷ starting ∷ r.0, r.1))
      (play-wait zzzloop2_main (goto spin new_task) n (jump resume ∷ steps (suc m)) refl
        ∙ ap (λ r. ((zzzloop2_main resume new_task).0 ++ r.0, r.1))
            (play-steps zzzloop2_main (goto spin_2 new_task) m refl))

main2_resumed_twice :
    (n m k : ℕ)
    → play zzzloop2_main
        (steps (suc n) ++ (jump resume ∷ (steps (suc m) ++ (jump resume_2 ∷ steps (suc k)))))
        new_task
      ≡ (main2_events ++ (dbg_out_lnx3 ++ (after_continue_2 ∷ [])), goto returned new_task)
unfolding play step zzzloop2_main
main2_resumed_twice n m k =
    let second : List Move = jump resume_2 ∷ steps (suc k) in
    ap (λ r. (entered ∷ starting ∷ r.0, r.1))
      (play-wait zzzloop2_main (goto spin new_task) n (jump resume ∷ (steps (suc m) ++ second)) refl
        ∙ ap (λ r. ((zzzloop2_main resume new_task).0 ++ r.0, r.1))
            (play-wait zzzloop2_main (goto spin_2 new_task) m second refl
              ∙ ap (λ r. ((zzzloop2_main resume_2 new_task).0 ++ r.0, r.1))
                  (play-steps zzzloop2_main (goto returned new_task) k refl)))

-- Resumed at `zzzloop_continue` at any time after it was started, a read of /proc/zzzloop returns
-- with its two lines, and the debug port has received LNX1 and LNX2.
pub zzzloop_resumed :
    (n m : ℕ)
    → let moves = steps (suc n) ++ (jump resume ∷ steps (suc m)) in
      (zzzloop_proc_show moves ≡ some (test_zzzloop 0 ∷ test_zzzloop 1 ∷ []))
      × (port_bytes (play zzzloop_main moves new_task).0 ≡ lnx 1 ++ lnx 2)
unfolding zzzloop_proc_show
zzzloop_resumed n m = (
  ap (λ r. on_returned (at r) (test_zzzloop 0 ∷ test_zzzloop 1 ∷ [])) (main_resumed n m),
  ap (λ r. port_bytes r.0) (main_resumed n m),
)

-- Resumed once, at `zzzloop2_continue`, a read of /proc/zzzloop2 has not returned after any number
-- of steps. Resumed again at `zzzloop2_continue_2`, it returns with its two lines, and the port has
-- received LNX1, LNX2 and LNX3.
pub zzzloop2_resumed :
    (n m k : ℕ)
    → let once = steps (suc n) ++ (jump resume ∷ steps (suc m)) in
      let twice =
        steps (suc n) ++ (jump resume ∷ (steps (suc m) ++ (jump resume_2 ∷ steps (suc k)))) in
      (zzzloop2_proc_show once ≡ none)
      × (zzzloop2_proc_show twice ≡ some (test_zzzloop2 0 ∷ test_zzzloop 1 ∷ []))
      × (port_bytes (play zzzloop2_main twice new_task).0 ≡ lnx 1 ++ (lnx 2 ++ lnx 3))
unfolding zzzloop2_proc_show
zzzloop2_resumed n m k = (
  ap (λ r. on_returned (at r) (test_zzzloop2 0 ∷ test_zzzloop 1 ∷ [])) (main2_resumed n m),
  ap (λ r. on_returned (at r) (test_zzzloop2 0 ∷ test_zzzloop 1 ∷ [])) (main2_resumed_twice n m k),
  ap (λ r. port_bytes r.0) (main2_resumed_twice n m k),
)
