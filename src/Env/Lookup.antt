-- ===== src/Env/Lookup.antt =====
-- envid2env of kern/env.c, on every branch.
use lab3a.Base.{
  ℕ, ◌≡◌, ◌≢◌, refl, none, some, Option, Bool, true, false, arith, ◌==◌, Bool-cases, inl, inr,
  ==_ne, ◌⊎◌,
}
use mathlib.Core.Bool.{false≢true}
use lab3a.Mmu.{neg, e_bad_env}
use lab3a.Machine.{Kernel}
use lab3a.Machine.Runs.{Returns}
use lab3a.Env.{envx, envid2env, is_free}

-- The environment at index `i` is live, bears the id, and, where the permission is checked, is the
-- caller `c` or a child of it.
abbrev pub Accessible : Kernel → ℕ → ℕ → Bool → Type 0
Accessible k c envid checkperm =
    let e = k.envs (envx envid) in
    (is_free e.env_status ≡ false)
    × (e.env_id ≡ envid)
    × (checkperm ≡ true → (e.env_parent_id ≡ (k.envs c).env_id) ⊎ (envx envid ≡ c))

-- What envid2env promises to the caller `c`.
abbrev pub Resolved : Kernel → ℕ → ℕ → Bool → ℕ × Option ℕ → Kernel → Type 0
Resolved k c envid checkperm r k' =
    (k' ≡ k)
    × ((r ≡ (0, some (envx envid))) × Accessible k c envid checkperm
        ⊎ (r ≡ (neg e_bad_env, none)) × (Accessible k c envid checkperm → ⊥))

module _ (k : Kernel) (c envid : ℕ) (checkperm : Bool) (e : k.curenv ≡ some c)
    (ne : envid ≢ 0) where
  Resolved-free :
      is_free (k.envs (envx envid)).env_status ≡ true
      → Returns (Resolved k c envid checkperm) (envid2env envid checkperm k)
  unfolding envid2env
  Resolved-free f = rw (==_ne envid 0 ne, f) (refl, inr (refl, λ a. ground arith))

  Resolved-stale :
      is_free (k.envs (envx envid)).env_status ≡ false
      → ((k.envs (envx envid)).env_id == envid) ≡ false
      → Returns (Resolved k c envid checkperm) (envid2env envid checkperm k)
  unfolding envid2env
  Resolved-stale f s = rw (==_ne envid 0 ne, f, s) (refl, inr (refl, λ a. ground arith))

module _ (k : Kernel) (c envid : ℕ) (e : k.curenv ≡ some c) (ne : envid ≢ 0)
    (f : is_free (k.envs (envx envid)).env_status ≡ false)
    (s : ((k.envs (envx envid)).env_id == envid) ≡ true) where
  Resolved-unchecked : Returns (Resolved k c envid false) (envid2env envid false k)
  unfolding envid2env
  Resolved-unchecked =
      rw (==_ne envid 0 ne, f, s) (refl, inl (refl, (f, ground arith, λ t. absurd (false≢true t))))

  Resolved-self :
      (envx envid == c) ≡ true → Returns (Resolved k c envid true) (envid2env envid true k)
  unfolding envid2env
  Resolved-self i =
      rw (==_ne envid 0 ne, f, s, e, i)
        (refl, inl (refl, (f, ground arith, λ t. inr (ground arith))))

  Resolved-child :
      (envx envid == c) ≡ false
      → ((k.envs (envx envid)).env_parent_id == (k.envs c).env_id) ≡ true
      → Returns (Resolved k c envid true) (envid2env envid true k)
  unfolding envid2env
  Resolved-child i p =
      rw (==_ne envid 0 ne, f, s, e, i, p)
        (refl, inl (refl, (f, ground arith, λ t. inl (ground arith))))

  Resolved-foreign :
      (envx envid == c) ≡ false
      → ((k.envs (envx envid)).env_parent_id == (k.envs c).env_id) ≡ false
      → Returns (Resolved k c envid true) (envid2env envid true k)
  unfolding envid2env
  Resolved-foreign i p =
      rw (==_ne envid 0 ne, f, s, e, i, p)
        (
          refl,
          inr (refl, λ a. elim (a.2 refl) [ inl same ↦ ground arith | inr own ↦ ground arith ]),
        )

  Resolved-live :
      (checkperm : Bool) → Returns (Resolved k c envid checkperm) (envid2env envid checkperm k)
  Resolved-live false = Resolved-unchecked
  Resolved-live true = elim (Bool-cases (envx envid == c)) [
    | inl i ↦ Resolved-self i
    | inr i ↦ elim (Bool-cases ((k.envs (envx envid)).env_parent_id == (k.envs c).env_id)) [
      | inl p ↦ Resolved-child i p
      | inr p ↦ Resolved-foreign i p
    ]
  ]

-- With a current environment c, for an id that is not 0, envid2env changes no state and returns 0 with
-- the environment that ENVX names exactly when that one is not free, bears this very id and, if
-- the permission is checked, is c or a child of c; otherwise it returns -E_BAD_ENV with NULL.
pub envid2env-Resolved :
    (k : Kernel) (c envid : ℕ) (checkperm : Bool)
    → k.curenv ≡ some c
    → envid ≢ 0
    → Returns (Resolved k c envid checkperm) (envid2env envid checkperm k)
envid2env-Resolved k c envid checkperm e ne =
    elim (Bool-cases (is_free (k.envs (envx envid)).env_status)) [
      | inl f ↦ Resolved-free k c envid checkperm e ne f
      | inr f ↦ elim (Bool-cases ((k.envs (envx envid)).env_id == envid)) [
        | inl s ↦ Resolved-live k c envid e ne f s checkperm
        | inr s ↦ Resolved-stale k c envid checkperm e ne f s
      ]
    ]
