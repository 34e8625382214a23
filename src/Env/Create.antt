-- ===== src/Env/Create.antt =====
-- env_setup_vm and env_alloc of kern/env.c.
use lab3a.Machine.Runs.{Returns}
use lab3a.Pmap.Walk.Translate.{word, uvpt_slot}
use lab3a.Pmap.Page.FreeList.{FreeList, set_page-FreeList}
use lab3a.Base.{
  ℕ, ◌+◌, ◌*◌, ◌%◌, ◌<◌, ◌≡◌, refl, none, some, update, bit_or, ◌∷◌, update_self, update-update, ap,
  Option, ◌∙◌, ==_self, List, ◌≢◌, update_ne, ◌⊎◌, suc, ◌≤◌, arith, if◌then◌else◌, is_null,
  Option-cases, inl, inr,
}
use lab3a.Mmu.{pte_p, pte_u, pdx, uvpt, neg, e_no_mem, e_no_free_env}
use lab3a.Machine.{Kernel, done, set_page, Env, env_type_user, env_runnable, new_env, PageInfo}
use lab3a.Machine.Convert.{kva, Fits, page2kva-ok, paddr-kva}
use lab3a.Pmap.Page.{alloc_zero}
use lab3a.Pmap.Page.Alloc.{taken_zero, page_alloc-zero, page_alloc-none, taken, taken-FreeList}
use lab3a.Env.{
  env_setup_vm, copy_page, Env, env_alloc, e_no_free_env, user_trapframe, next_id, env_type_user,
  env_runnable, env_alloc_from, new_env, curenv_id, PageInfo,
}

-- The directory of a new environment: a copy of the kernel's, but for the slot UVPT.
abbrev pub directory_mem : ℕ → Kernel → ℕ → ℕ
directory_mem p k =
    update (copy_page (kva p) k.kern_pgdir (taken_zero p k).mem) (kva p + 4 * pdx uvpt)
      (bit_or (bit_or (p * 4096) pte_p) pte_u)

-- The state that env_setup_vm leaves when it takes the page `p`.
abbrev pub with_directory : ℕ → ℕ → Kernel → Kernel
with_directory e p k =
    let k' = taken_zero p k in
    record k' {
      pages =
          update k'.pages p (record (k'.pages p) { pp_ref = ((k'.pages p).pp_ref + 1) % 65536 });
      envs = update k.envs e (record (k.envs e) { env_pgdir = kva p });
      mem = directory_mem p k;
    }

module _ (k : Kernel) (e : ℕ) (fits : Fits k) where
  pub env_setup_vm-some :
      (p : ℕ)
      → k.page_free_list ≡ some p
      → p < k.npages
      → env_setup_vm e k ≡ done 0 (with_directory e p k)
  unfolding env_setup_vm
  env_setup_vm-some p head h =
      rw (page_alloc-zero k p fits h head, page2kva-ok {k = counted} fits h, paddr-kva) refl
    where
      counted : Kernel
      counted =
          let k' = taken_zero p k in
          set_page p (record (k'.pages p) { pp_ref = ((k'.pages p).pp_ref + 1) % 65536 }) k'

  pub env_setup_vm-none : k.page_free_list ≡ none → env_setup_vm e k ≡ done (neg e_no_mem) k
  unfolding env_setup_vm
  env_setup_vm-none head = rw (page_alloc-none alloc_zero k head)

-- The record of a new environment.
abbrev pub new_record : ℕ → ℕ → ℕ → Env → Env
new_record e p parent v = record {
  env_tf = user_trapframe;
  env_link = v.env_link;
  env_id = next_id v.env_id e;
  env_parent_id = parent;
  env_type = env_type_user;
  env_status = env_runnable;
  env_runs = 0;
  env_pgdir = kva p;
}

-- The state that env_alloc leaves, but for the message, and with it.
abbrev pub created : ℕ → ℕ → ℕ → Kernel → Kernel
created e p parent k = record (with_directory e p k) {
  envs = update k.envs e (new_record e p parent (k.envs e));
  env_free_list = (k.envs e).env_link;
}

abbrev pub announced : ℕ → ℕ → ℕ → Kernel → Kernel
announced e p parent k =
    let k' = created e p parent k in
    record k' { messages = new_env (curenv_id k') (next_id (k.envs e).env_id e) ∷ k.messages }

module _ (k : Kernel) (parent : ℕ) (fits : Fits k) where
  pub env_alloc-created :
      (e p : ℕ)
      → k.env_free_list ≡ some e
      → k.page_free_list ≡ some p
      → p < k.npages
      → env_alloc parent k ≡ done (0, some e) (announced e p parent k)
  unfolding env_alloc env_alloc_from next_id
  env_alloc-created e p he hp h =
      ap (λ (l : Option ℕ). env_alloc_from parent l k) he
      ∙ rw (env_setup_vm-some k e fits p hp h, ==_self e, same) refl
    where
      v : Env
      v = k.envs e

      same :
          update (update k.envs e (record v { env_pgdir = kva p })) e (new_record e p parent v)
          ≡ update k.envs e (new_record e p parent v)
      same = update-update k.envs e (record v { env_pgdir = kva p }) (new_record e p parent v)

  pub env_alloc-no_mem :
      (e : ℕ)
      → k.env_free_list ≡ some e
      → k.page_free_list ≡ none
      → env_alloc parent k ≡ done (neg e_no_mem, none) k
  unfolding env_alloc env_alloc_from next_id
  env_alloc-no_mem e he hp =
      ap (λ (l : Option ℕ). env_alloc_from parent l k) he ∙ rw (env_setup_vm-none k e fits hp) refl

  pub env_alloc-no_env :
      k.env_free_list ≡ none → env_alloc parent k ≡ done (neg e_no_free_env, none) k
  unfolding env_alloc env_alloc_from next_id
  env_alloc-no_env he = rw he

-- What env_alloc promises of a state whose free lists begin at the environment `e` and at the page
-- `p`, followed by the pages `xs`.
pub record Created (k : Kernel) (e p : ℕ) (xs : List ℕ) (parent d : ℕ) (r : ℕ × Option ℕ)
    (k' : Kernel) : Type 0 where
  pub result : r ≡ (0, some e)
  pub env : k'.envs e ≡ new_record e p parent (k.envs e)
  pub others : (i : ℕ) → i ≢ e → k'.envs i ≡ k.envs i
  pub env_list : k'.env_free_list ≡ (k.envs e).env_link
  pub page_list : FreeList k' xs
  pub counted : (k'.pages p).pp_ref ≡ 1
  pub kernel_part : (i : ℕ) → i < 1024 → i ≢ 957 → k'.mem (word p i) ≡ k.mem (word d i)
  pub own_tables : k'.mem (word p 957) ≡ bit_or (bit_or (p * 4096) pte_p) pte_u
  pub other_pages : (q : ℕ) → (q < kva p) ⊎ (kva (suc p) ≤ q) → k'.mem q ≡ k.mem q
  pub current : k'.curenv ≡ k.curenv

announced-Created :
    (k : Kernel) (e p : ℕ) (xs : List ℕ) (parent d : ℕ)
    → FreeList k (p ∷ xs)
    → k.kern_pgdir ≡ kva d
    → d ≢ p
    → Created k e p xs parent d (0, some e) (announced e p parent k)
announced-Created k e p xs parent d f dir ne = record {
  result = refl;
  env = update_self k.envs e (new_record e p parent (k.envs e));
  others = λ i h. update_ne k.envs e i (new_record e p parent (k.envs e)) h;
  env_list = refl;
  page_list = record {
    chain = left.chain;
    distinct = left.distinct;
    unused = left.unused;
    in_range = left.in_range;
  };
  counted = ground (arith, f.unused.0);
  kernel_part = λ i h o. rw (uvpt_slot, dir) (ground arith);
  own_tables = rw (uvpt_slot) (ground arith);
  other_pages = λ q o. rw (uvpt_slot) (ground arith);
  current = refl;
}
  where
    counted_page : PageInfo
    counted_page = let v = (taken p k).pages p in record v { pp_ref = (v.pp_ref + 1) % 65536 }

    left : FreeList (set_page p counted_page (taken p k)) xs
    left = set_page-FreeList (taken p k) p counted_page xs (taken-FreeList k p xs f) f.distinct.0

-- From free lists that begin at the environment e and at the page p, which is not the page of
-- kern_pgdir, env_alloc returns 0 and e. The record of e gets the parent, a new id, the status
-- ENV_RUNNABLE, no runs, the registers of a user program with the stack at USTACKTOP, and the
-- page p as its directory: a copy of kern_pgdir, but for the slot UVPT, which maps the directory itself
-- for reading. Page p is counted once, both free lists go on behind e and p, and no other
-- environment and no other page's memory changes.
pub env_alloc-Created :
    (k : Kernel) (e p : ℕ) (xs : List ℕ) (parent d : ℕ)
    → Fits k
    → FreeList k (p ∷ xs)
    → k.env_free_list ≡ some e
    → k.kern_pgdir ≡ kva d
    → d ≢ p
    → Returns (Created k e p xs parent d) (env_alloc parent k)
env_alloc-Created k e p xs parent d fits f he dir ne =
    rw (env_alloc-created k parent fits e p he f.chain.0 f.in_range.0)
      (announced-Created k e p xs parent d f dir ne)

-- Without a free environment env_alloc returns -E_NO_FREE_ENV, and without a free page for the
-- directory -E_NO_MEM; it stores no environment and changes nothing.
pub env_alloc_fails :
    (k : Kernel) (parent : ℕ)
    → Fits k
    → (k.env_free_list ≡ none) ⊎ (k.page_free_list ≡ none)
    → Returns
        (λ r k'.
          (k' ≡ k)
          × (r ≡ (neg (if is_null k.env_free_list then e_no_free_env else e_no_mem), none)))
        (env_alloc parent k)
env_alloc_fails k parent fits c = elim (Option-cases k.env_free_list) [
  | inl he ↦ rw (env_alloc-no_env k parent fits he) (refl, rw he refl)
  | inr (e, he) ↦ elim c [
    | inl empty ↦ ground arith
    | inr hp ↦ rw (env_alloc-no_mem k parent fits e he hp) (refl, rw he refl)
  ]
]
