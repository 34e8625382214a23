-- ===== src/Pmap/Walk/Insertion.antt =====
-- page_insert with the table made on the way, and all its branches together.
use lab3a.Pmap.Walk.Insert.{insert_at-ok}
use lab3a.Pmap.Page.FreeList.{FreeList, Chain}
use lab3a.Machine.Runs.{Returns}
use lab3a.Pmap.Page.Alloc.{taken_zero}
use lab3a.Pmap.Walk.{page_insert, pde_ptr}
use lab3a.Mmu.Entry.{table_entry, present-entry}
use lab3a.Pmap.Walk.Runs.{pde_of, installed, installed-number, walk-create, walk-no_mem}
use lab3a.Pmap.Walk.Create.{Fresh, leaf-grown, grown-Directory}
use lab3a.Pmap.Walk.Translate.{Directory, leaf, pte_at, pte_at-word, word}
use lab3a.Mmu.{pdx, present, pgnum, ptx, neg, e_no_mem}
use lab3a.Machine.Convert.{Fits, kva, page2pa}
use lab3a.Base.{
  ℕ, ◌+◌, ◌*◌, ◌<◌, ◌≡◌, ◌≢◌, inl, inr, refl, sym, ap, subst, none, some, true, false, bit_or,
  Bool-cases, List, [], ◌∷◌, arith, All, ◌∙◌, fun_ext, ap₂, update_self,
}
use lab3a.Machine.{Kernel}
use lab3a.Pmap.Walk.Map.{
  plus, refs_of, Mapped, InsertOutcome, MapsMemory, inserted-Mapped, insert-present, refs_after,
}

-- No table, and no page for one.
insert-no_mem :
    (k : Kernel) (pgdir pp va perm : ℕ)
    → Fits k
    → present (pde_of k pgdir va) ≡ false
    → k.page_free_list ≡ none
    → Returns (λ r k'. (r ≡ neg e_no_mem) × (k' ≡ k)) (page_insert pgdir pp va perm k)
unfolding page_insert
insert-no_mem k pgdir pp va perm fits absent e =
    rw (walk-no_mem k pgdir va fits absent e) (refl, refl)

-- A state that translates as `k` does serves in its place.
Mapped-transport :
    (k kc k' : Kernel) (d va pp perm : ℕ) (r : ℕ → ℕ)
    → pdx va ≢ 957
    → ((va' : ℕ) → pdx va' ≢ 957 → leaf kc.mem (kva d) va' ≡ leaf k.mem (kva d) va')
    → refs_of kc ≡ r
    → kc.npages ≡ k.npages
    → Mapped kc d va pp perm (refs_of kc) k'
    → Mapped k d va pp perm r k'
Mapped-transport k kc k' d va pp perm r user same refs size
      (entry, checked, others, shape, counts) =
    (
      entry,
      checked,
      (λ va' user' other. others va' user' other ∙ same va' user'),
      subst (λ n. Directory n k'.mem d) size shape,
      (λ q. counts q ∙ ap₂ (λ o (f : ℕ → ℕ). refs_after o pp f q) (same va user) refs),
    )

module _ (k : Kernel) (d va pp perm p : ℕ) (fits : Fits k) (dir : Directory k.npages k.mem d)
    (user : pdx va ≢ 957) (exists : pp < k.npages) (small : perm < 4096) (fresh : Fresh k.mem d p)
    (own : p < k.npages) (absent : present (pde_of k (kva d) va) ≡ false) where
  abbrev entry_of : ℕ
  entry_of = table_entry (page2pa p)

  abbrev grown_state : Kernel
  grown_state = installed p (pde_ptr (kva d) va) (taken_zero p k)

  number : pgnum entry_of ≡ p
  number = installed-number p (omega arith)

  grown_table : present (pde_of grown_state (kva d) va) ≡ true
  grown_table =
      ap present (update_self (taken_zero p k).mem (pde_ptr (kva d) va) entry_of)
      ∙ present-entry (bit_or (bit_or (page2pa p) 4) 2)

  grown_ptr : kva p + 4 * ptx va ≡ pte_at (pde_of grown_state (kva d) va) va
  grown_ptr = sym (
      ap (λ (e : ℕ). pte_at e va) (update_self (taken_zero p k).mem (pde_ptr (kva d) va) entry_of)
      ∙ pte_at-word entry_of va
      ∙ ap (λ (t : ℕ). word t (ptx va)) number)

  grown_leaf : (va' : ℕ) → pdx va' ≢ 957 → leaf grown_state.mem (kva d) va' ≡ leaf k.mem (kva d) va'
  grown_leaf =
      leaf-grown k.npages k.mem d p va entry_of dir fresh user absent own number (present-entry _)

  grown_refs : refs_of grown_state ≡ plus (refs_of k) p
  grown_refs = fun_ext λ q. ground arith

  pub insert-create :
      k.page_free_list ≡ some p
      → MapsMemory k d va
      → Returns
          (λ r k'. (r ≡ 0) × Mapped k d va pp perm (plus (refs_of k) p) k')
          (page_insert (kva d) pp va perm k)
  unfolding page_insert
  insert-create head mapped =
      rw (walk-create k (kva d) va fits p absent head own, grown_ptr)
        (rw
          (insert_at-ok grown_state d va fits shape user grown_table pp perm
            (λ pte e. mapped pte (sym (grown_leaf va user) ∙ e)))
          (
            refl,
            Mapped-transport k grown_state _ d va pp perm _ user grown_leaf grown_refs refl
                (inserted-Mapped grown_state d va pp perm fits shape user exists small grown_table),
          ))
    where
      shape : Directory k.npages grown_state.mem d
      shape =
          grown-Directory k.npages k.mem d p va entry_of dir fresh user absent own number
            (present-entry _)

module _ (k : Kernel) (d va pp perm : ℕ) (xs : List ℕ) (fits : Fits k)
    (dir : Directory k.npages k.mem d) (user : pdx va ≢ 957) (exists : pp < k.npages)
    (small : perm < 4096) (free : FreeList k xs) where
  insert-absent :
      present (pde_of k (kva d) va) ≡ false
      → All (Fresh k.mem d) xs
      → MapsMemory k d va
      → Returns (InsertOutcome k d va pp perm false xs) (page_insert (kva d) pp va perm k)
  insert-absent absent fresh mapped = go xs free.chain free.in_range fresh
    where
      go :
          (ys : List ℕ)
          → Chain k.pages k.page_free_list ys
          → All (λ p. p < k.npages) ys
          → All (Fresh k.mem d) ys
          → Returns (InsertOutcome k d va pp perm false ys) (page_insert (kva d) pp va perm k)
      go [] chain range f = insert-no_mem k (kva d) pp va perm fits absent chain
      go (p ∷ ys) chain range f =
          insert-create k d va pp perm p fits dir user exists small f.0 range.0 absent chain.0
            mapped

  -- Under a well-shaped directory whose tables are not on the free list, for an address outside
  -- the slot UVPT and a page of physical memory, page_insert returns. Where a table is there, or
  -- the free list has a page for one, it returns 0 and maps the page as `Mapped` says, evicting
  -- what was mapped and counting the new table's reference. Where neither holds, it returns
  -- -E_NO_MEM and changes nothing.
  pub page_insert-InsertOutcome :
      All (Fresh k.mem d) xs
      → MapsMemory k d va
      → Returns
          (InsertOutcome k d va pp perm (present (pde_of k (kva d) va)) xs)
          (page_insert (kva d) pp va perm k)
  page_insert-InsertOutcome fresh mapped = elim (Bool-cases (present (pde_of k (kva d) va))) [
    | inl h ↦ rw h (insert-present k d va pp perm fits dir user exists small h mapped)
    | inr h ↦ rw h (insert-absent h fresh mapped)
  ]
