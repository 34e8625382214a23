-- ===== src/Trap/Dispatch.antt =====
-- What trap of kern/trap.c does, by where the trap comes from and what it is.
use lab3a.Syscall.{syscall}
use lab3a.Env.{env_run, gd_kt, env_id_at, is_running}
use lab3a.Env.Release.{Freed}
use lab3a.Machine.Runs.{Stays, Stays-first, Leaves, Panics}
use lab3a.Syscall.Destroy.{Freeable, destroyed}
use lab3a.Base.{
  ℕ, ◌≡◌, refl, bit_and, some, false, List, ◌∷◌, update, ==_self, ◌≢◌, Bool-cases, subst, Option,
  ◌==◌, sym, inl, inr, ==_ne, arith, true, ap, update_self, if◌then◌else◌,
}
use lab3a.Machine.{
  ◌>>=◌, cprintf, user_fault, Kernel, Trapframe, M, and_then, incoming_trap, Message, done, ◌>>◌,
  trapframe, Env, kernel_page_fault, unhandled_trap,
}
use lab3a.Trap.{
  dispatch_on, trap, trap_dispatch, of_env, resume, on_stack, page_fault_handler, t_brkpt,
  destroy_current, t_syscall, t_pgflt, dispatch_on, env_run, gd_kt, syscall,
}

-- The state once the frame of a trap from user mode is saved in the environment c.
abbrev pub saved : Trapframe → ℕ → Kernel → Kernel
saved tf c k = record k {
  envs = update k.envs c (record (k.envs c) { env_tf = tf });
  messages = incoming_trap ∷ k.messages;
}

module _ (monitor : M (Unit {0})) (cr2 : ℕ) (serial kbd : List ℕ) (k : Kernel)
    (tf : Trapframe) where
  trap-user :
      (c : ℕ)
      → k.curenv ≡ some c
      → bit_and tf.tf_cs 3 ≡ 3
      → trap monitor cr2 serial kbd false tf k
        ≡ and_then
            (trap_dispatch monitor cr2 serial kbd (of_env c) (saved tf c k))
            (λ _ k'. resume monitor cr2 serial kbd k'.curenv k')
  unfolding trap
  trap-user c cur user = simp (user, cur) refl

  -- From kernel mode: nothing is saved, and the frame stays on the stack.
  pub trap-kernel :
      bit_and tf.tf_cs 3 ≡ 0
      → trap monitor cr2 serial kbd false tf k
        ≡ and_then
            (trap_dispatch monitor cr2 serial kbd
              (on_stack tf)
              (record k { messages = incoming_trap ∷ k.messages }))
            (λ _ k'. resume monitor cr2 serial kbd k'.curenv k')
  unfolding trap
  trap-kernel kernel = rw kernel refl

-- The frame that trap_dispatch reads is the one that was saved.
dispatch-saved :
    (monitor : M (Unit {0})) (cr2 : ℕ) (serial kbd : List ℕ) (tf : Trapframe) (c : ℕ) (k : Kernel)
    → trap_dispatch monitor cr2 serial kbd (of_env c) (saved tf c k)
      ≡ dispatch_on monitor cr2 serial kbd (of_env c) tf (saved tf c k)
unfolding trap_dispatch
dispatch-saved monitor cr2 serial kbd tf c k =
    ap (λ (e : Env). dispatch_on monitor cr2 serial kbd (of_env c) e.env_tf (saved tf c k))
      (update_self k.envs c (record (k.envs c) { env_tf = tf }))

Saved-Freeable :
    (tf : Trapframe) (c d : ℕ) (k : Kernel) → Freeable k c d → Freeable (saved tf c k) c d
Saved-Freeable tf c d k f = record {
  fits = f.fits;
  high = f.high;
  directory = rw ==_self f.directory;
  in_range = f.in_range;
  sound = f.sound;
}

module _ (monitor : M (Unit {0})) (cr2 : ℕ) (serial kbd : List ℕ) (k : Kernel) (tf : Trapframe)
    (c d : ℕ) (cur : k.curenv ≡ some c) (user : bit_and tf.tf_cs 3 ≡ 3)
    (free : Freeable k c d) where
  destroy-Freed :
      (ms : List Message)
      → Stays
          (Freed (saved tf c k) c d)
          (destroy_current (saved tf c k).curenv (record (saved tf c k) { messages = ms }))
  destroy-Freed ms =
      subst
        (λ (l : Option ℕ).
          Stays (Freed (saved tf c k) c d)
            (destroy_current l (record (saved tf c k) { messages = ms })))
        (sym cur)
        (destroyed (Unit {0}) (saved tf c k) ms k.user_mem_check_addr c d
          (Saved-Freeable tf c d k free))

  on_frame-Freed :
      tf.tf_trapno ≢ t_brkpt
      → tf.tf_trapno ≢ t_syscall
      → Stays
          (Freed (saved tf c k) c d)
          (dispatch_on monitor cr2 serial kbd (of_env c) tf (saved tf c k))
  unfolding dispatch_on page_fault_handler
  on_frame-Freed nb ns = elim (Bool-cases (tf.tf_trapno == t_pgflt)) [
    | inl p ↦
        simp (p, user)
          (subst
            (λ (l : Option ℕ). Stays (Freed (saved tf c k) c d) (
              (env_id_at l >>= λ id.
              cprintf (user_fault id cr2 tf.tf_eip)
              >> (cprintf (trapframe tf) >> destroy_current l))
                (saved tf c k)))
            (sym cur)
            (destroyed (Unit {0}) (saved tf c k) _ k.user_mem_check_addr c d
              (Saved-Freeable tf c d k free)))
    | inr p ↦
        simp
          (
            p,
            ==_ne tf.tf_trapno t_brkpt nb,
            ==_ne tf.tf_trapno t_syscall ns,
            ==_ne tf.tf_cs gd_kt not_kernel,
          )
          (destroy-Freed (trapframe tf ∷ incoming_trap ∷ k.messages))
  ]
    where
      not_kernel : tf.tf_cs ≢ gd_kt
      not_kernel e = let same : bit_and 8 3 ≡ 3 = rw (e) at user in absurd (omega (arith, same))

-- A trap from user mode, with interrupts off and the current environment c one that can be freed,
-- that is neither a breakpoint nor a system call, a page fault among them, saves the frame in c, frees
-- c and stays in the monitor: the program does not go on.
pub trap-Freed :
    (monitor : M (Unit {0})) (cr2 : ℕ) (serial kbd : List ℕ) (k : Kernel) (tf : Trapframe) (c d : ℕ)
    → k.curenv ≡ some c
    → bit_and tf.tf_cs 3 ≡ 3
    → Freeable k c d
    → tf.tf_trapno ≢ t_brkpt
    → tf.tf_trapno ≢ t_syscall
    → Stays (Freed (saved tf c k) c d) (trap monitor cr2 serial kbd false tf k)
trap-Freed monitor cr2 serial kbd k tf c d cur user free nb ns =
    rw
      (
        trap-user monitor cr2 serial kbd k tf c cur user,
        dispatch-saved monitor cr2 serial kbd tf c k,
      )
      (Stays-first (Freed (saved tf c k) c d) (Freed (saved tf c k) c d) _ _ (λ k' h. h)
        ((on_frame-Freed monitor cr2 serial kbd k tf c d cur user free nb ns)))

-- The frame with which a program goes on after a system call that returned `v`.
abbrev pub answered : Trapframe → ℕ → Trapframe
answered tf v = record tf { tf_regs = record tf.tf_regs { reg_eax = v } }

-- A system call from user mode, with interrupts off: when syscall, run from the state with the saved
-- frame, returns v in a state where the caller c is still current and running with that frame, the
-- trap leaves for user mode with the caller's registers, %eax holding v.
pub trap-syscall :
    (monitor : M (Unit {0})) (cr2 : ℕ) (serial kbd : List ℕ) (k k' : Kernel) (tf : Trapframe)
    (c v : ℕ)
    → k.curenv ≡ some c
    → bit_and tf.tf_cs 3 ≡ 3
    → tf.tf_trapno ≡ t_syscall
    → syscall serial kbd tf.tf_regs.reg_eax tf.tf_regs.reg_edx tf.tf_regs.reg_ecx (saved tf c k)
      ≡ done v k'
    → k'.curenv ≡ some c
    → is_running (k'.envs c).env_status ≡ true
    → (k'.envs c).env_tf ≡ tf
    → Leaves (λ t _. t ≡ answered tf v) (trap monitor cr2 serial kbd false tf k)
unfolding dispatch_on env_run
trap-syscall monitor cr2 serial kbd k k' tf c v cur user number call cur' running frame =
    rw
      (
        trap-user monitor cr2 serial kbd k tf c cur user,
        dispatch-saved monitor cr2 serial kbd tf c k,
      )
      (simp (==_self, number, call, cur', running, frame) refl)

-- A trap from the kernel's code segment, with interrupts off, that is neither a breakpoint nor a
-- system call panics: on a page fault with "kernel-mode page fault", on any other with
-- "unhandled trap in kernel".
pub trap_kernel-Panics :
    (monitor : M (Unit {0})) (cr2 : ℕ) (serial kbd : List ℕ) (k : Kernel) (tf : Trapframe)
    → tf.tf_cs ≡ gd_kt
    → tf.tf_trapno ≢ t_brkpt
    → tf.tf_trapno ≢ t_syscall
    → Panics
        (if tf.tf_trapno == t_pgflt then kernel_page_fault else unhandled_trap)
        (trap monitor cr2 serial kbd false tf k)
unfolding trap_dispatch dispatch_on page_fault_handler
trap_kernel-Panics monitor cr2 serial kbd k tf cs nb ns =
    rw (trap-kernel monitor cr2 serial kbd k tf (rw cs refl))
      (elim (Bool-cases (tf.tf_trapno == t_pgflt)) [
        | inl p ↦ simp (p, cs) refl
        | inr p ↦ simp (p, ==_ne tf.tf_trapno t_brkpt nb, ==_ne tf.tf_trapno t_syscall ns, cs) refl
      ])
