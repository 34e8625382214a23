-- ===== src/Syscall/Destroy.antt =====
-- sys_env_destroy of kern/syscall.c, and what syscall makes of its result.
use lab3a.Base.{
  ◌==◌, Option, subst, sym, ℕ, ◌<◌, ◌≤◌, ◌≡◌, refl, some, none, true, List, Bool-cases, inl, inr,
}
use lab3a.Mmu.{neg, e_bad_env, kernbase}
use lab3a.Machine.{M, pure, Kernel, done, Message, and_then}
use lab3a.Machine.Runs.{Stays-first, Stays, Stays-mono}
use lab3a.Machine.Convert.{kva, Fits}
use lab3a.Env.{env_destroy, envid2env}
use lab3a.Env.Sound.{Sound}
use lab3a.Env.Release.{Freed}
use lab3a.Env.Run.{env_destroy-Freed}
use lab3a.Syscall.{destroy_at, destroy_for, sys_env_destroy, syscall, sys_env_destroy_no}

module _ (k : Kernel) (envid : ℕ) where
  sys_env_destroy-refused :
      envid2env envid true k ≡ done (neg e_bad_env, none) k
      → sys_env_destroy envid k ≡ done (neg e_bad_env) k
  unfolding sys_env_destroy
  sys_env_destroy-refused e = rw e refl

  -- When envid2env refuses the id with -E_BAD_ENV, sys_env_destroy returns that error, but
  -- the system call that the user makes returns 0, and neither changes anything.
  pub syscall_drops_error :
      (serial kbd : List ℕ) (a2 : ℕ)
      → envid2env envid true k ≡ done (neg e_bad_env, none) k
      → (sys_env_destroy envid k ≡ done (neg e_bad_env) k)
        × (syscall serial kbd sys_env_destroy_no envid a2 k ≡ done 0 k)
  unfolding syscall
  syscall_drops_error serial kbd a2 e =
      let refused = sys_env_destroy-refused e in (refused, rw refused refl)

-- A message and user_mem_check_addr do not change what env_destroy leaves.
pub Freed-said :
    (k : Kernel) (ms : List Message) (a e d : ℕ) (k' : Kernel)
    → Freed (record k { user_mem_check_addr = a; messages = ms }) e d k'
    → Freed k e d k'
Freed-said k ms a e d k' f = record {
  env = f.env;
  others = f.others;
  env_list = f.env_list;
  current = f.current;
  cr3 = f.cr3;
  unmapped = f.unmapped;
  memory = f.memory;
}

-- The conditions under which an environment can be freed.
pub record Freeable (k : Kernel) (e d : ℕ) : Type 0 where
  pub fits : Fits k
  pub high : kernbase ≤ k.kern_pgdir
  pub directory : (k.envs e).env_pgdir ≡ kva d
  pub in_range : d < k.npages
  pub sound : Sound k.npages k.mem d

pub destroyed :
    (A : Type 0) (k : Kernel) (ms : List Message) (a e d : ℕ)
    → Freeable k e d
    → Stays
        (Freed k e d)
        (env_destroy {A = A} e (record k { user_mem_check_addr = a; messages = ms }))
destroyed A k ms a e d free =
    let k' : Kernel = record k { user_mem_check_addr = a; messages = ms } in
    Stays-mono (Freed k' e d) (Freed k e d) _ (Freed-said k ms a e d)
      (env_destroy-Freed A e d k' free.fits free.high free.directory free.in_range free.sound)

pub destroyed_first :
    (A B : Type 0) (k : Kernel) (ms : List Message) (a e d : ℕ) (f : A → M B)
    → Freeable k e d
    → Stays
        (Freed k e d)
        (and_then (env_destroy {A = A} e (record k { user_mem_check_addr = a; messages = ms })) f)
destroyed_first A B k ms a e d f free =
    Stays-first (Freed k e d) (Freed k e d) _ f (λ k' h. h) (destroyed A k ms a e d free)

destroy_for-Freed :
    (k : Kernel) (c e d : ℕ) (f : ℕ → M ℕ)
    → Freeable k e d
    → Stays (Freed k e d) (and_then (destroy_for e (some c) k) f)
unfolding destroy_for
destroy_for-Freed k c e d f free = elim (Bool-cases (e == c)) [
  | inl q ↦ rw q (destroyed_first ℕ ℕ k _ k.user_mem_check_addr e d f free)
  | inr q ↦ rw q (destroyed_first ℕ ℕ k _ k.user_mem_check_addr e d f free)
]

-- When envid2env finds the environment e for the current environment c and e can be freed, the system
-- call never returns to its caller: it stays in the monitor, with e freed and every other
-- environment as it was, also when e is not c.
pub syscall-sys_env_destroy :
    (k : Kernel) (envid : ℕ) (serial kbd : List ℕ) (a2 c e d : ℕ)
    → k.curenv ≡ some c
    → envid2env envid true k ≡ done (0, some e) k
    → Freeable k e d
    → Stays (Freed k e d) (syscall serial kbd sys_env_destroy_no envid a2 k)
unfolding syscall sys_env_destroy destroy_at
syscall-sys_env_destroy k envid serial kbd a2 c e d cur found free = rw found (
    subst
      (λ (l : Option ℕ). Stays {A = ℕ} (Freed k e d) (and_then (destroy_for e l k) (λ _. pure 0)))
      (sym cur) (destroy_for-Freed k c e d (λ _. pure 0) free))
