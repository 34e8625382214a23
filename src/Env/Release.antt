-- ===== src/Env/Release.antt =====
-- env_free of kern/env.c as a whole, and how env_destroy, env_run and env_pop_tf end.
use lab3a.Machine.Runs.{Returns, Returns-bind}
use lab3a.Env.Unmap.{EmptySlots, Ready, unmap_tables-Kept}
use lab3a.Base.{
  ==_self, ==_ne, ℕ, ◌-◌, ◌*◌, ◌<◌, ◌≤◌, ◌≡◌, ◌≢◌, refl, some, false, arith, update, ptr_eq,
  if◌then◌else◌, ◌∷◌, ◌∙◌,
}
use lab3a.Mmu.{kernbase, pgnum, present, pdx, utop}
use lab3a.Machine.{Kernel, done, free_env, env_free_st}
use lab3a.Machine.Convert.{kva, paddr, paddr-kva, pa2page-ok, Fits}
use lab3a.Pmap.Page.Release.{dropped, page_decref-ok}
use lab3a.Pmap.Walk.Translate.{word}
use lab3a.Env.{leave_pgdir, release_env, curenv_id, pdx, utop, env_free}
use lab3a.Env.Sound.{Shrunk, Kept, Kept-dropped, Shrunk-absent, Shrunk-trans, Sound}

-- The state at the start of env_free's loops.
left : ℕ → Kernel → Kernel
left e k = record k {
  cr3 = if ptr_eq (some e) k.curenv then k.kern_pgdir - kernbase else k.cr3;
  messages = free_env (curenv_id k) (k.envs e).env_id ∷ k.messages;
}

leave_pgdir-ok :
    (e : ℕ) (k : Kernel) → kernbase ≤ k.kern_pgdir → leave_pgdir e k ≡ done tt (left e k)
unfolding leave_pgdir left paddr
leave_pgdir-ok e k h = ground arith

-- The state that env_free leaves after its loops have left `k`.
released : ℕ → ℕ → Kernel → Kernel
released e d k =
    let k' =
      dropped d (record k { envs = update k.envs e (record (k.envs e) { env_pgdir = 0 }) }) in
    record k' {
      envs =
          update k'.envs e
            (record (k'.envs e) { env_status = env_free_st; env_link = k'.env_free_list });
      env_free_list = some e;
    }

page_number : (d : ℕ) → pgnum (d * 4096) ≡ d
unfolding pgnum
page_number d = omega arith

release_env-ok :
    (e d : ℕ) (k : Kernel)
    → (k.envs e).env_pgdir ≡ kva d
    → d < k.npages
    → release_env e k ≡ done tt (released e d k)
unfolding release_env released
release_env-ok e d k dir h =
    let k' = record k { envs = update k.envs e (record (k.envs e) { env_pgdir = 0 }) } in
    rw (dir, paddr-kva, pa2page-ok k' (d * 4096) (rw page_number h), page_number, page_decref-ok)
      refl

-- What env_free leaves of an environment whose directory is the page `d`.
pub record Freed (k : Kernel) (e d : ℕ) (k' : Kernel) : Type 0 where
  pub env :
      k'.envs e
      ≡ record (k.envs e) { env_pgdir = 0; env_status = env_free_st; env_link = k.env_free_list }
  pub others : (i : ℕ) → i ≢ e → k'.envs i ≡ k.envs i
  pub env_list : k'.env_free_list ≡ some e
  pub current : k'.curenv ≡ k.curenv
  pub cr3 : k'.cr3 ≡ (if ptr_eq (some e) k.curenv then k.kern_pgdir - kernbase else k.cr3)
  pub unmapped : (i : ℕ) → i < 955 → present (k'.mem (word d i)) ≡ false
  pub memory : Shrunk k.mem k'.mem

utop_slot : pdx utop ≡ 955
unfolding pdx
utop_slot = refl

-- The last steps of env_free, from what its loops gave.
released-Freed :
    (e d : ℕ) (k k' : Kernel)
    → Kept (left e k) k'
    → EmptySlots d 0 955 k'
    → Freed k e d (released e d k')
unfolding left released
released-Freed e d k k' kept empty = record {
  env = rw (drop.envs, drop.env_free_list, ==_self e, kept.envs, kept.env_free_list) refl;
  others = λ i h. rw (drop.envs, ==_ne i e h, kept.envs) refl;
  env_list = refl;
  current = drop.curenv ∙ kept.curenv;
  cr3 = drop.cr3 ∙ kept.cr3;
  unmapped =
      λ i h. Shrunk-absent k'.mem _ (word d i) drop.mem (empty i (omega arith) (omega arith));
  memory = Shrunk-trans k.mem k'.mem _ kept.mem drop.mem;
}
  where
    unset : Kernel
    unset = record k' { envs = update k'.envs e (record (k'.envs e) { env_pgdir = 0 }) }

    drop : Kept unset (dropped d unset)
    drop = Kept-dropped unset d

-- For an environment whose directory is a page of physical memory with a sound user part, env_free
-- returns: its loops end and no step panics. The environment is then free, without a directory,
-- and the first of the free list; every user slot of its directory is empty, every word of memory is
-- kept or cleared, and the other environments are untouched. The processor is switched to
-- kern_pgdir exactly when the environment is current, and curenv still names it then.
pub env_free-Freed :
    (e d : ℕ) (k : Kernel)
    → Fits k
    → kernbase ≤ k.kern_pgdir
    → (k.envs e).env_pgdir ≡ kva d
    → d < k.npages
    → Sound k.npages k.mem d
    → Returns (λ _ k'. Freed k e d k') (env_free e k)
unfolding env_free left
env_free-Freed e d k fits high dir h sound =
    rw (leave_pgdir-ok e k high, utop_slot)
      (Returns-bind (λ _ k'. Kept (left e k) k' × EmptySlots d 0 955 k') _ _ _
        (unmap_tables-Kept e d 955 0 (left e k) ready (omega arith))
        (λ _ k' t.
          rw (release_env-ok e d k' (rw (t.0.envs) dir) (rw (t.0.npages) h))
            (released-Freed e d k k' t.0 t.1)))
  where
    ready : Ready e d (left e k)
    ready = record { fits = fits; pgdir = dir; sound = sound }
