-- ===== src/Env/Run.antt =====
-- How env_destroy and env_run of kern/env.c leave the kernel.
use lab3a.Base.{
  ℕ, ◌+◌, ◌-◌, ◌<◌, ◌≤◌, ◌≡◌, ◌≢◌, refl, some, Option, arith, ptr_eq, if◌then◌else◌, true, false,
  ==_self, ==_ne, Bool, le→ltb,
}
use lab3a.Mmu.{u32, kernbase}
use lab3a.Machine.{cprintf, destroyed_only, ◌>>◌, Kernel, Trapframe, env_running}
use lab3a.Machine.Runs.{Returns, Returns-bind, Stays, Stays-bind, Leaves}
use lab3a.Machine.Convert.{kva, Fits, paddr}
use lab3a.Env.{env_free, env_destroy, env_run, env_free}
use lab3a.Env.Sound.{Sound}
use lab3a.Env.Release.{Freed, env_free-Freed}

-- Under the conditions of env_free, env_destroy frees the environment and stays in the monitor for
-- ever: it never returns to its caller.
pub env_destroy-Freed :
    (A : Type 0) (e d : ℕ) (k : Kernel)
    → Fits k
    → kernbase ≤ k.kern_pgdir
    → (k.envs e).env_pgdir ≡ kva d
    → d < k.npages
    → Sound k.npages k.mem d
    → Stays (Freed k e d) (env_destroy {A = A} e k)
unfolding env_destroy
env_destroy-Freed A e d k fits high dir h sound =
    Stays-bind (λ _ k'. Freed k e d k') (Freed k e d) ((env_free e >> cprintf destroyed_only) k) _
      (Returns-bind (λ _ k'. Freed k e d k') (λ _ k'. Freed k e d k') (env_free e k) _
        (env_free-Freed e d k fits high dir h sound) said)
      (λ _ k' f. f)
  where
    said :
        (u : Unit {0}) (k' : Kernel)
        → Freed k e d k'
        → Returns (λ _ k''. Freed k e d k'') (cprintf destroyed_only k')
    said u k' f = record {
      env = f.env;
      others = f.others;
      env_list = f.env_list;
      current = f.current;
      cr3 = f.cr3;
      unmapped = f.unmapped;
      memory = f.memory;
    }

-- What env_run has done when it leaves for user mode, by whether the environment was current.
abbrev pub Switched : Bool → Kernel → ℕ → Trapframe → Kernel → Type 0
Switched same k e t k' =
    let v = k.envs e in
    (t ≡ v.env_tf)
    × (k'.curenv ≡ some e)
    × (k'.envs e ≡ (
        if same then v else record v { env_status = env_running; env_runs = u32 (v.env_runs + 1) }))
    × (k'.cr3 ≡ (if same then k.cr3 else v.env_pgdir - kernbase))
    × ((i : ℕ) → i ≢ e → k'.envs i ≡ k.envs i)
    × (k'.mem ≡ k.mem)

ptr_eq-some : (c : Option ℕ) (e : ℕ) → ptr_eq c (some e) ≡ true → c ≡ some e
ptr_eq-some c e h = ground arith

switched :
    (A : Type 0) (same : Bool) (e : ℕ) (k : Kernel)
    → kernbase ≤ (k.envs e).env_pgdir
    → ptr_eq k.curenv (some e) ≡ same
    → Leaves (Switched same k e) (env_run {A = A} e k)
unfolding env_run paddr
switched A true e k h c = rw c (refl, ptr_eq-some k.curenv e c, refl, refl, (λ i ne. refl), refl)
switched A false e k h c =
    rw (c, le→ltb (k.envs e).env_pgdir kernbase h, ==_self)
      (refl, refl, refl, refl, (λ i ne. rw (==_ne i e ne) refl), refl)

-- For an environment with a page directory above KERNBASE, env_run leaves for user mode with its saved
-- registers, with it as the current environment. On a switch it is marked running, its runs are
-- counted and its directory is loaded; where it is current already nothing changes. No other
-- environment changes: the one that ran before keeps its status, ENV_RUNNING included.
pub env_run-Switched :
    (A : Type 0) (e : ℕ) (k : Kernel)
    → kernbase ≤ (k.envs e).env_pgdir
    → Leaves (Switched (ptr_eq k.curenv (some e)) k e) (env_run {A = A} e k)
env_run-Switched A e k h = switched A (ptr_eq k.curenv (some e)) e k h refl
