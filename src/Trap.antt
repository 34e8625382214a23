-- ===== src/Trap.antt =====
-- Traps: trap, trap_dispatch and page_fault_handler of kern/trap.c. The address that the processor
-- has in CR2, what the console's devices deliver, and whether interrupts are off are parameters of a trap.
pub mod Dispatch
pub mod Gates
use lab3a.Base.{
  ℕ, ◌≡◌, bit_and, Option, none, some, Bool, true, false, not, List, ◌==◌, if◌then◌else◌,
}
use lab3a.Machine.{
  Kernel, Trapframe, PushRegs, Env, M, panic, monitor_loop, kernel_page_fault, unhandled_trap,
  assertion, null_deref, user_fault, trapframe, incoming_trap, pure, gets, ◌>>=◌, ◌>>◌, cprintf,
  set_env,
}
use lab3a.Env.{gd_kt, is_running, env_destroy, env_run, env_id_at}
use lab3a.Syscall.{syscall}

abbrev pub t_brkpt : ℕ
t_brkpt = 3

abbrev pub t_pgflt : ℕ
t_pgflt = 14

abbrev pub t_syscall : ℕ
t_syscall = 48

-- Where the frame that trap works on stands: on the kernel's stack, or in curenv->env_tf.
pub data Frame : Type 0 where
  on_stack : Trapframe → Frame
  of_env : ℕ → Frame

abbrev pub frame_of : Frame → Kernel → Trapframe
frame_of (on_stack tf) k = tf
frame_of (of_env e) k = (k.envs e).env_tf

-- env_destroy(curenv)
abbrev pub destroy_current : Option ℕ → M (Unit {0})
destroy_current none = panic null_deref
destroy_current (some c) = env_destroy c

unfoldable pub page_fault_handler : ℕ → Trapframe → M (Unit {0})
page_fault_handler fault_va tf = if bit_and tf.tf_cs 3 == 0 then panic kernel_page_fault else do
  c ← gets (λ k. k.curenv)
  id ← env_id_at c
  cprintf (user_fault id fault_va tf.tf_eip)
  cprintf (trapframe tf)
  destroy_current c

-- tf->tf_regs.reg_eax = v
abbrev pub set_eax : Frame → ℕ → M (Unit {0})
set_eax (on_stack tf) v = pure tt
set_eax (of_env e) v = do
  env ← gets (λ k. k.envs e)
  set_env e (record env {
    env_tf = record env.env_tf { tf_regs = record env.env_tf.tf_regs { reg_eax = v } };
  })

-- monitor(tf): the commands that it reads are not modelled; `monitor` is a run of them
module _ (monitor : M (Unit {0})) (cr2 : ℕ) (serial kbd : List ℕ) where
  -- trap_dispatch(tf), by the frame that `tf` points to
  pub dispatch_on : Frame → Trapframe → M (Unit {0})
  dispatch_on f tf =
      if tf.tf_trapno == t_pgflt
      then page_fault_handler cr2 tf
      else if tf.tf_trapno == t_brkpt
      then monitor
      else if tf.tf_trapno == t_syscall
      then (do
        v ← syscall serial kbd tf.tf_regs.reg_eax tf.tf_regs.reg_edx tf.tf_regs.reg_ecx
        set_eax f v)
      else (do
        cprintf (trapframe tf)
        if tf.tf_cs == gd_kt
            then panic unhandled_trap
            else do c ← gets (λ k. k.curenv); destroy_current c)

  pub trap_dispatch : Frame → M (Unit {0})
  trap_dispatch f = gets (frame_of f) >>= dispatch_on f

  -- The end of trap: the current environment goes on.
  abbrev pub resume : Option ℕ → M (Unit {0})
  resume none = panic assertion
  resume (some c) = do
    env ← gets (λ k. k.envs c)
    if is_running env.env_status then env_run c else panic assertion

  -- Where the frame of a trap from user mode is kept.
  abbrev pub save_frame : Trapframe → Option ℕ → M Frame
  save_frame tf none = panic assertion
  save_frame tf (some c) = do
    env ← gets (λ k. k.envs c)
    set_env c (record env { env_tf = tf })
    pure (of_env c)

  unfoldable pub trap : Bool → Trapframe → M (Unit {0})
  unfolding trap_dispatch
  trap interrupts_on tf = if interrupts_on then panic assertion else do
    cprintf incoming_trap
    c ← gets (λ k. k.curenv)
    f ← (if bit_and tf.tf_cs 3 == 3 then save_frame tf c else pure (on_stack tf))
    trap_dispatch f
    c ← gets (λ k. k.curenv)
    resume c
