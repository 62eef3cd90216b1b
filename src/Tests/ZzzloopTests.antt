-- ===== src/Tests/ZzzloopTests.antt =====
-- The loops of zzzloop.c resumed after a few steps, and its timer with a period of 62 jiffies.
use resume_from_edk2_tooling.Base.{◌≡◌, arith, List, [], ◌∷◌, ◌++◌, some, none}
use resume_from_edk2_tooling.Zzzloop.Task.{
  Move, jump, resume, resume_2, zzzloop_main, zzzloop2_main, play, new_task, zzzloop_proc_show,
  zzzloop2_proc_show, test_zzzloop, test_zzzloop2,
}
use resume_from_edk2_tooling.Zzzloop.Resume.{
  steps, port_bytes, lnx, zzzloop_resumed, zzzloop2_resumed,
}
use resume_from_edk2_tooling.Zzzloop.Timer.{
  Kernel, Reachable, at_boot, after, tick, read_start, pass, booted, zzzloop_timer_start_proc_show,
}
use resume_from_edk2_tooling.Zzzloop.Rate.{Paced, counter_rate}

zzzloop_resumed_example :
    (zzzloop_proc_show (steps 4 ++ (jump resume ∷ steps 2))
      ≡ some (test_zzzloop 0 ∷ test_zzzloop 1 ∷ []))
    × (port_bytes (play zzzloop_main (steps 4 ++ (jump resume ∷ steps 2)) new_task).0
        ≡ lnx 1 ++ lnx 2)
zzzloop_resumed_example = zzzloop_resumed 3 1

abbrev resumed_twice : List Move
resumed_twice = steps 4 ++ (jump resume ∷ (steps 2 ++ (jump resume_2 ∷ steps 3)))

zzzloop2_resumed_example :
    (zzzloop2_proc_show (steps 4 ++ (jump resume ∷ steps 2)) ≡ none)
    × (zzzloop2_proc_show resumed_twice ≡ some (test_zzzloop2 0 ∷ test_zzzloop 1 ∷ []))
    × (port_bytes (play zzzloop2_main resumed_twice new_task).0 ≡ lnx 1 ++ (lnx 2 ++ lnx 3))
zzzloop2_resumed_example = zzzloop2_resumed 3 1 2

abbrev started : Kernel
started = tick (zzzloop_timer_start_proc_show 62 (booted 1000))

started-Reachable : Reachable 62 1000 started
started-Reachable = after (after at_boot (read_start (booted 1000))) (pass _)

counter_rate_example : Paced 62 1000 started
unfolding zzzloop_timer_start_proc_show
counter_rate_example = counter_rate 62 1000 started-Reachable (omega arith)
