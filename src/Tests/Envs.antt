-- ===== src/Tests/Envs.antt =====
-- Environments at the small machine.
use lab3a.Base.{
  ℕ, ◌<◌, ◌≡◌, refl, none, some, arith, ◌==◌, if◌then◌else◌, [], ◌∷◌, true, false, ptr_eq,
}
use lab3a.Mmu.{pgnum, present, neg, e_bad_env}
use lab3a.Machine.{Kernel}
use lab3a.Machine.Runs.{Returns, Leaves}
use lab3a.Pmap.Walk.Translate.{word}
use lab3a.Env.{envid2env, env_alloc, env_free, env_run, envx}
use lab3a.Env.Lookup.{Resolved, envid2env-Resolved}
use lab3a.Env.Create.{Created, env_alloc-Created}
use lab3a.Env.Reuse.{env_alloc-envid2env}
use lab3a.Env.Sound.{Sound}
use lab3a.Env.Release.{Freed, env_free-Freed}
use lab3a.Env.Run.{Switched, env_run-Switched}
use lab3a.Tests.State.{small, small_mem, small-Fits, small-FreeList, only_slot, no_env}

envid2env-Resolved_example : Returns (Resolved small 0 4096 true) (envid2env 4096 true small)
envid2env-Resolved_example =
    envid2env-Resolved small 0 4096 true refl (λ e. absurd (omega (arith, e)))

abbrev no_pool : Kernel
no_pool = record small { env_free_list = none }

env_alloc-Created_example : Returns (Created small 1 300 (301 ∷ 302 ∷ []) 0 260) (env_alloc 0 small)
env_alloc-Created_example =
    env_alloc-Created small 1 300 (301 ∷ 302 ∷ []) 0 260 small-Fits small-FreeList refl refl
      (λ e. absurd (omega (arith, e)))

abbrev no_pages : Kernel
no_pages = record small { page_free_list = none }

-- The environment at index 1 has run before.
abbrev reused : Kernel
reused = record small {
  envs = λ i. if i == 1 then record no_env { env_id = 4097 } else small.envs i;
}

env_alloc-envid2env_example :
    Returns
      (λ r k'.
        Returns (λ s _. s ≡ (0, some 1)) (envid2env (k'.envs 1).env_id false k')
        × Returns (λ s _. s ≡ (neg e_bad_env, none)) (envid2env 4097 false k'))
      (env_alloc 0 reused)
unfolding envx
env_alloc-envid2env_example =
    env_alloc-envid2env reused 1 300 0 small-Fits refl refl (omega arith) (omega arith)
      (omega arith) (λ e. absurd (omega (arith, e))) refl

only_entry :
    (j : ℕ)
    → j < 1024
    → present (small_mem (word 401 j)) ≡ true
    → pgnum (small_mem (word 401 j)) < 600
unfolding present pgnum
only_entry j b h = ground arith

pub small-Sound : Sound 600 small_mem 400
unfolding pgnum
small-Sound = record {
  tables = λ i b h. rw (only_slot i (omega arith) h) (omega arith);
  frames = λ i j b b' h h'.
      let two = only_slot i (omega arith) h in rw two (only_entry j b' (rw (two) at h'));
}

env_free-Freed_example : Returns (λ _ k'. Freed small 0 400 k') (env_free 0 small)
env_free-Freed_example =
    env_free-Freed 0 400 small small-Fits (omega arith) refl (omega arith) small-Sound

abbrev other_current : Kernel
other_current = record small { curenv = some 1 }

env_run-Switched_example :
    Leaves
      (Switched (ptr_eq other_current.curenv (some 0)) other_current 0)
      (env_run {A = ℕ} 0 other_current)
env_run-Switched_example = env_run-Switched ℕ 0 other_current (omega arith)
