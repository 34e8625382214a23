-- ===== src/Env/Reuse.antt =====
-- The ids of env_alloc and envid2env of kern/env.c together: a record that is used again.
use lab3a.Env.Ids.{next_id_lem}
use lab3a.Machine.Runs.{Returns}
use lab3a.Base.{ℕ, ◌<◌, ◌≡◌, refl, none, some, ==_self, ◌≢◌, arith, ◌^◌, false, ==_ne}
use lab3a.Mmu.{neg, e_bad_env}
use lab3a.Machine.{Kernel}
use lab3a.Machine.Convert.{Fits}
use lab3a.Env.{env_alloc, next_id, envid2env, envx, e_bad_env}
use lab3a.Env.Create.{announced, env_alloc-created}

module _ (k : Kernel) (e p parent : ℕ) (he : e < 1024) (small : (k.envs e).env_id < 2 ^ 31) where
  fresh_found :
      Returns
        (λ s _. s ≡ (0, some e))
        (envid2env ((announced e p parent k).envs e).env_id false (announced e p parent k))
  unfolding envid2env
  fresh_found =
      let id = next_id_lem (k.envs e).env_id e small he in
      rw
        (
          ==_self e,
          ==_ne (next_id (k.envs e).env_id e) 0 (omega (arith, id.0)),
          id.2,
          ==_self e,
          ==_self (next_id (k.envs e).env_id e),
        )
        refl

  stale_refused :
      (k.envs e).env_id ≢ 0
      → envx (k.envs e).env_id ≡ e
      → Returns
          (λ s _. s ≡ (neg e_bad_env, none))
          (envid2env (k.envs e).env_id false (announced e p parent k))
  unfolding envid2env
  stale_refused ne own =
      let id = next_id_lem (k.envs e).env_id e small he in
      rw
        (
          ==_ne (k.envs e).env_id 0 ne,
          own,
          ==_self e,
          ==_ne (next_id (k.envs e).env_id e) (k.envs e).env_id (id.3),
        )
        refl

-- For a free environment at an index e below NENV whose record holds an earlier id, one that is not
-- 0 and from which ENVX reads e: after env_alloc, envid2env without a permission check finds e by its
-- new id, and refuses the earlier id with -E_BAD_ENV and NULL.
pub env_alloc-envid2env :
    (k : Kernel) (e p parent : ℕ)
    → Fits k
    → k.env_free_list ≡ some e
    → k.page_free_list ≡ some p
    → p < k.npages
    → e < 1024
    → (k.envs e).env_id < 2 ^ 31
    → (k.envs e).env_id ≢ 0
    → envx (k.envs e).env_id ≡ e
    → Returns
        (λ r k'.
          Returns (λ s _. s ≡ (0, some e)) (envid2env (k'.envs e).env_id false k')
          × Returns (λ s _. s ≡ (neg e_bad_env, none)) (envid2env (k.envs e).env_id false k'))
        (env_alloc parent k)
env_alloc-envid2env k e p parent fits he hp h small id ne own =
    rw (env_alloc-created k parent fits e p he hp h)
      (fresh_found k e p parent small id, stale_refused k e p parent small id ne own)
