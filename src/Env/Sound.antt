-- ===== src/Env/Sound.antt =====
-- The user part of an environment's address space, as env_free of kern/env.c walks it, and what
-- its steps leave alone.
use lab3a.Base.{
  ℕ, ◌+◌, ◌<◌, ◌≡◌, ◌⊎◌, inl, inr, refl, ◌∙◌, true, false, arith, update, ◌==◌, Bool-cases, List,
  ◌%◌,
}
use lab3a.Mmu.{pgnum, present}
use lab3a.Machine.{Kernel}
use lab3a.Pmap.Page.Release.{dropped}
use lab3a.Pmap.Walk.Translate.{word}

-- Every present entry below UTOP, on both levels, names a page of physical memory.
pub record Sound (npages : ℕ) (mem : ℕ → ℕ) (d : ℕ) : Type 0 where
  pub tables : (i : ℕ) → i < 955 → present (mem (word d i)) ≡ true → pgnum (mem (word d i)) < npages
  pub frames :
      (i j : ℕ)
      → i < 955
      → j < 1024
      → present (mem (word d i)) ≡ true
      → present (mem (word (pgnum (mem (word d i))) j)) ≡ true
      → pgnum (mem (word (pgnum (mem (word d i))) j)) < npages

-- Words are kept or cleared.
abbrev pub Shrunk : (ℕ → ℕ) → (ℕ → ℕ) → Type 0
Shrunk mem mem' = (q : ℕ) → (mem' q ≡ mem q) ⊎ (mem' q ≡ 0)

-- What env_free's loops do to the state: memory shrinks, and pages go to the free list.
pub record Kept (k k' : Kernel) : Type 0 where
  pub mem : Shrunk k.mem k'.mem
  pub npages : k'.npages ≡ k.npages
  pub envs : k'.envs ≡ k.envs
  pub curenv : k'.curenv ≡ k.curenv
  pub env_free_list : k'.env_free_list ≡ k.env_free_list
  pub cr3 : k'.cr3 ≡ k.cr3

pub Shrunk-trans : (f g h : ℕ → ℕ) → Shrunk f g → Shrunk g h → Shrunk f h
Shrunk-trans f g h a b q = elim (b q) [
  | inl e ↦ elim (a q) [ inl e' ↦ inl (e ∙ e') | inr z ↦ inr (e ∙ z) ]
  | inr z ↦ inr z
]

pub Shrunk-update : (f : ℕ → ℕ) (p : ℕ) → Shrunk f (update f p 0)
Shrunk-update f p q = elim (Bool-cases (q == p)) [
  | inl e ↦ rw e (inr refl)
  | inr e ↦ rw e (inl refl)
]

-- What is present after was present before, and the same.
pub Shrunk-present : (f g : ℕ → ℕ) (q : ℕ) → Shrunk f g → present (g q) ≡ true → g q ≡ f q
unfolding present
Shrunk-present f g q s h = elim (s q) [ inl e ↦ e | inr z ↦ ground arith ]

pub Shrunk-absent :
    (f g : ℕ → ℕ) (q : ℕ) → Shrunk f g → present (f q) ≡ false → present (g q) ≡ false
unfolding present
Shrunk-absent f g q s h = elim (s q) [ inl e ↦ rw e h | inr z ↦ rw z refl ]

pub Kept-self : (k : Kernel) → Kept k k
Kept-self k = record {
  mem = λ q. inl refl;
  npages = refl;
  envs = refl;
  curenv = refl;
  env_free_list = refl;
  cr3 = refl;
}

pub Kept-trans : (k k' k'' : Kernel) → Kept k k' → Kept k' k'' → Kept k k''
Kept-trans k k' k'' a b = record {
  mem = Shrunk-trans k.mem k'.mem k''.mem a.mem b.mem;
  npages = b.npages ∙ a.npages;
  envs = b.envs ∙ a.envs;
  curenv = b.curenv ∙ a.curenv;
  env_free_list = b.env_free_list ∙ a.env_free_list;
  cr3 = b.cr3 ∙ a.cr3;
}

pub Kept-store :
    (k : Kernel) (p : ℕ) (vs : List ℕ)
    → Kept k (record k { mem = update k.mem p 0; invalidated = vs })
Kept-store k p vs = record {
  mem = Shrunk-update k.mem p;
  npages = refl;
  envs = refl;
  curenv = refl;
  env_free_list = refl;
  cr3 = refl;
}

pub Kept-dropped : (k : Kernel) (p : ℕ) → Kept k (dropped p k)
Kept-dropped k p = elim (Bool-cases ((((k.pages p).pp_ref + 65535) % 65536) == 0)) [
  | inl e ↦ rw e record {
    mem = λ q. inl refl;
    npages = refl;
    envs = refl;
    curenv = refl;
    env_free_list = refl;
    cr3 = refl;
  }
  | inr e ↦ rw e record {
    mem = λ q. inl refl;
    npages = refl;
    envs = refl;
    curenv = refl;
    env_free_list = refl;
    cr3 = refl;
  }
]

pub Sound-Kept :
    (k k' : Kernel) (d : ℕ) → Kept k k' → Sound k.npages k.mem d → Sound k'.npages k'.mem d
Sound-Kept k k' d kept s = record {
  tables = λ i h p. rw (same i p, kept.npages) (s.tables i h (rw (same i p) at p));
  frames = λ i j h h' p p'.
      let inner = Shrunk-present k.mem k'.mem (word (pgnum (k'.mem (word d i))) j) kept.mem p' in
      rw (inner, same i p, kept.npages)
        (s.frames i j h h' (rw (same i p) at p) (rw (inner, same i p) at p'));
}
  where
    same : (i : ℕ) → present (k'.mem (word d i)) ≡ true → k'.mem (word d i) ≡ k.mem (word d i)
    same i p = Shrunk-present k.mem k'.mem (word d i) kept.mem p
