-- ===== src/Env/Pool.antt =====
-- env_init of kern/env.c and the free list of environments.
use lab3a.Base.{
  ℕ, zero, suc, ◌+◌, ◌≤◌, ◌<◌, ◌≡◌, refl, ap, ◌∙◌, sym, subst, none, some, Option, true, List, [],
  ◌∷◌, arith, ◌==◌, update, update_ne, has, Bool-cases, inl, inr, ==_iff, ==_self,
}
use mathlib.Core.Bool.{false≢true}
use lab3a.Machine.{Kernel, Env}
use lab3a.Machine.Runs.{Returns}
use lab3a.Env.{env_init_below, env_init}

-- From `head` the links lead through the environments in order and end in NULL.
abbrev pub EnvChain : (ℕ → Env) → Option ℕ → List ℕ → Type 0
EnvChain envs head [] = head ≡ none
EnvChain envs head (e ∷ xs) = (head ≡ some e) × EnvChain envs (envs e).env_link xs

-- The numbers from `i` on, `n` of them.
abbrev pub range : ℕ → ℕ → List ℕ
range i zero = []
range i (suc n) = i ∷ range (suc i) n

pub EnvChain-frame :
    (envs envs' : ℕ → Env) (head : Option ℕ) (xs : List ℕ)
    → ((e : ℕ) → has e xs ≡ true → (envs' e).env_link ≡ (envs e).env_link)
    → EnvChain envs head xs
    → EnvChain envs' head xs
EnvChain-frame envs envs' head [] same c = c
EnvChain-frame envs envs' head (e ∷ xs) same c = (
  c.0,
  subst (λ l. EnvChain envs' l xs) (sym (same e (ground arith)))
      (EnvChain-frame envs envs' (envs e).env_link xs (λ q m. same q (ground arith)) c.1),
)

range-ge : (i n q : ℕ) → has q (range i n) ≡ true → i ≤ q
range-ge i zero q h = absurd (false≢true h)
range-ge i (suc n) q h = elim (Bool-cases (q == i)) [
  | inl e ↦ ground arith
  | inr e ↦ omega (arith, range-ge (suc i) n q (rw (e) at h))
]

-- What env_init leaves once the environments from `i` on are done: they are the free list, in
-- order, with the id 0, and nothing else of them has changed.
pub record Pooled (k : Kernel) (i n : ℕ) (k' : Kernel) : Type 0 where
  pub list : EnvChain k'.envs k'.env_free_list (range i n)
  pub ids :
      (e : ℕ)
      → i ≤ e
      → e < i + n
      → k'.envs e ≡ record (k.envs e) { env_id = 0; env_link = (k'.envs e).env_link }
  pub rest : (e : ℕ) → e < i → k'.envs e ≡ k.envs e
  pub mem : k'.mem ≡ k.mem
  pub pages : k'.pages ≡ k.pages

pooled_step : ℕ → Kernel → Kernel
pooled_step i k = record k {
  envs = update k.envs i (record (k.envs i) { env_id = 0; env_link = k.env_free_list });
  env_free_list = some i;
}

pooled_step-Pooled :
    (k : Kernel) (i n : ℕ) (k' : Kernel)
    → Pooled k (suc i) n k'
    → Pooled k i (suc n) (pooled_step i k')
unfolding pooled_step
pooled_step-Pooled k i n k' p = record {
  list = (
    refl,
    subst (λ l. EnvChain envs l (range (suc i) n)) link
        (EnvChain-frame k'.envs envs _ _ (λ q m. ap (λ (v : Env). v.env_link) (kept q m)) p.list),
  );
  ids = λ e l h. elim (Bool-cases (e == i)) [
    | inl q ↦ rw ((==_iff e i).0 q, ==_self i, p.rest i (omega arith)) refl
    | inr q ↦ rw q (p.ids e (ground arith) (omega arith))
  ];
  rest = λ e h. update_ne k'.envs i e _ (omega arith) ∙ p.rest e (omega arith);
  mem = p.mem;
  pages = p.pages;
}
  where
    envs : ℕ → Env
    envs = (pooled_step i k').envs

    link : k'.env_free_list ≡ (envs i).env_link
    link = ground arith

    kept : (q : ℕ) → has q (range (suc i) n) ≡ true → envs q ≡ k'.envs q
    kept q m = update_ne k'.envs i q _ (omega (arith, range-ge (suc i) n q m))

env_init_below-Pooled :
    (k : Kernel) (i n : ℕ) (k' : Kernel)
    → Pooled k i n k'
    → Returns (λ _ k''. Pooled k 0 (i + n) k'') (env_init_below i k')
unfolding env_init_below pooled_step
env_init_below-Pooled k zero n k' p = let e : 0 + n ≡ n = omega arith in rw e p
env_init_below-Pooled k (suc i) n k' p =
    let e : suc i + n ≡ i + suc n = omega arith in
    rw e (env_init_below-Pooled k i (suc n) (pooled_step i k') (pooled_step-Pooled k i n k' p))

-- From an empty free list, env_init makes the free list all NENV environments in the order of the
-- array, so that env_alloc takes envs[0] first. Each gets the id 0 and keeps everything
-- else but its link, env_status included: that is ENV_FREE only because the array was zeroed.
pub env_init-Pooled :
    (k : Kernel) → k.env_free_list ≡ none → Returns (λ _ k'. Pooled k 0 1024 k') (env_init k)
unfolding env_init
env_init-Pooled k e = env_init_below-Pooled k 1024 0 k record {
  list = e;
  ids = λ e l h. absurd (omega arith);
  rest = λ e h. refl;
  mem = refl;
  pages = refl;
}
