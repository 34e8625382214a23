-- ===== src/Tests/Calls.antt =====
-- System calls, traps and the console at the small machine.
use lab3a.Base.{ℕ, ◌≡◌, refl, none, some, arith, [], ◌∷◌, true, false, ◌+◌, ◌*◌}
use lab3a.Mmu.{neg, e_bad_env}
use lab3a.Machine.{Kernel, Trapframe, M, monitor_loop, done}
use lab3a.Machine.Runs.{Returns, Stays, Leaves}
use lab3a.Console.{cons_getc}
use lab3a.Console.Queue.{queue, first_or, others, waiting, InBuffer, cons_getc-queue}
use lab3a.Env.Release.{Freed}
use lab3a.Env.{envid2env, envx}
use lab3a.Syscall.{syscall, sys_cputs, sys_env_destroy_no}
use lab3a.Syscall.Destroy.{Freeable, syscall-sys_env_destroy}
use lab3a.Syscall.Cputs.{Caller, Printed, sys_cputs-Printed}
use lab3a.Trap.{trap}
use lab3a.Trap.Dispatch.{saved, answered, trap-Freed, trap-syscall}
use lab3a.Tests.State.{small, small-Fits, no_trapframe, no_regs}
use lab3a.Tests.Access.{small-TablesInMemory}
use lab3a.Trap.Gates.{Gatedesc, IsGate, has_gate, trap_init, trap_init-IsGate}
use lab3a.Tests.Envs.{small-Sound}

cons_getc-queue_example :
    Returns
      (λ r k'.
        (r ≡ first_or (queue (97 ∷ []) (0 ∷ 98 ∷ []) small.cons))
        × (waiting k'.cons ≡ others (queue (97 ∷ []) (0 ∷ 98 ∷ []) small.cons))
        × InBuffer k'.cons)
      (cons_getc (97 ∷ []) (0 ∷ 98 ∷ []) small)
cons_getc-queue_example = cons_getc-queue (97 ∷ []) (0 ∷ 98 ∷ []) small (omega arith) (omega arith)

abbrev nearly_full : Kernel
nearly_full = record small { cons = record { buf = λ i. 97; rpos = 0; wpos = 511 } }

abbrev small-Freeable : Freeable small 0 400
small-Freeable = record {
  fits = small-Fits;
  high = omega arith;
  directory = refl;
  in_range = omega arith;
  sound = small-Sound;
}

small-Caller : Caller small 0
unfolding envx
small-Caller = record {
  current = refl;
  live = refl;
  id = λ e. absurd (omega (arith, e));
  place = refl;
}

stale_id : envid2env 9999 true small ≡ done (neg e_bad_env, none) small
unfolding envid2env
stale_id = refl

own_id : envid2env 4096 true small ≡ done (0, some 0) small
unfolding envid2env
own_id = refl

syscall-sys_env_destroy_example :
    Stays (Freed small 0 400) (syscall [] [] sys_env_destroy_no 4096 0 small)
syscall-sys_env_destroy_example =
    syscall-sys_env_destroy small 4096 [] [] 0 0 0 400 refl own_id small-Freeable

sys_cputs-Printed_example : Printed small 0 400 0x800010 20 (sys_cputs 0x800010 20 small)
sys_cputs-Printed_example =
    sys_cputs-Printed small 0 400 0x800010 20 small-Fits small-Caller small-Freeable
      small-TablesInMemory (omega arith)

abbrev user_frame : ℕ → ℕ → Trapframe
user_frame trapno eax = record no_trapframe {
  tf_cs = 0x1b;
  tf_trapno = trapno;
  tf_regs = record no_regs { reg_eax = eax };
}

abbrev stay : M (Unit {0})
stay k = monitor_loop k

trap-Freed_example :
    Stays
      (Freed (saved (user_frame 14 0) 0 small) 0 400)
      (trap stay 0xdead [] [] false (user_frame 14 0) small)
trap-Freed_example =
    trap-Freed stay 0xdead [] [] small (user_frame 14 0) 0 400 refl refl small-Freeable
      (λ e. absurd (omega (arith, e))) (λ e. absurd (omega (arith, e)))

getenvid_call :
    syscall [] [] 2 0 0 (saved (user_frame 48 2) 0 small)
    ≡ done 4096 (saved (user_frame 48 2) 0 small)
unfolding syscall
getenvid_call = refl

trap-syscall_example :
    Leaves
      (λ t _. t ≡ answered (user_frame 48 2) 4096)
      (trap stay 0 [] [] false (user_frame 48 2) small)
trap-syscall_example =
    trap-syscall stay 0 [] [] small (saved (user_frame 48 2) 0 small) (user_frame 48 2) 0 4096 refl
      refl refl getenvid_call refl refl refl

abbrev kernel_frame : Trapframe
kernel_frame = record no_trapframe { tf_cs = 8; tf_trapno = 14 }

abbrev no_gates : ℕ → Gatedesc
no_gates n = record {
  gd_off_15_0 = 0;
  gd_sel = 0;
  gd_args = 0;
  gd_rsv1 = 0;
  gd_type = 0;
  gd_s = 0;
  gd_dpl = 0;
  gd_p = 0;
  gd_off_31_16 = 0;
}

abbrev stubs : ℕ → ℕ
stubs n = 0xF0103000 + 8 * n

trap_init-IsGate_example :
    IsGate stubs (no_gates 14) (trap_init stubs no_gates 14) 14 (has_gate stubs 14)
trap_init-IsGate_example = trap_init-IsGate stubs no_gates 14 refl
