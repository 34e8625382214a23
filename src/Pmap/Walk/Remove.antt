-- ===== src/Pmap/Walk/Remove.antt =====
-- page_remove undoes one mapping and leaves the others.
use lab3a.Base.{
  ◌==◌, ◌%◌, Option-cases, sym, ap, subst, ℕ, ◌<◌, ◌≡◌, ◌≢◌, inl, inr, refl, none, some, true, ◌∷◌,
  arith, if◌then◌else◌, update, update_ne, update_self, Option, ◌+◌,
}
use lab3a.Mmu.{pgnum, pdx, ptx, pte_addr, present}
use lab3a.Machine.{Kernel, done}
use lab3a.Machine.Runs.{Returns}
use lab3a.Machine.Convert.{kva, Fits}
use lab3a.Pmap.Page.Release.{
  dropped, page_decref-ok, mem-dropped, invalidated-dropped, pp_ref-dropped, page_free_list-dropped,
}
use lab3a.Pmap.Walk.{pde_ptr, page_remove}
use lab3a.Pmap.Walk.Translate.{
  if_present, pte_at, leaf, leaf_in_frame, Apart, Directory, pdx-lt, ptx-lt, pte_at-word, word_ne,
  word,
}
use lab3a.Pmap.Walk.Runs.{pde_of, InMemory, page_lookup-leaf}

-- The state after the entry at `ptr` that maps `va` to the page `pg` was removed.
abbrev pub removed : ℕ → ℕ → ℕ → Kernel → Kernel
removed va pg ptr k = record (dropped pg k) {
  mem = update (dropped pg k).mem ptr 0;
  invalidated = va ∷ (dropped pg k).invalidated;
}

module _ (k : Kernel) (d va : ℕ) (fits : Fits k) (dir : Directory k.npages k.mem d)
    (user : pdx va ≢ 957) where
  pub table-InMemory : present (pde_of k (kva d) va) ≡ true → InMemory k (pde_of k (kva d) va)
  table-InMemory h = (dir.tables (pdx va) (pdx-lt va, user) h).0

  pub page_remove-none : leaf k.mem (kva d) va ≡ none → page_remove (kva d) va k ≡ done tt k
  unfolding page_remove
  page_remove-none e = rw (page_lookup-leaf k (kva d) va fits table-InMemory (λ pte m. cc), e)

  pub page_remove-some :
      (pte : ℕ)
      → leaf k.mem (kva d) va ≡ some pte
      → InMemory k pte
      → page_remove (kva d) va k
        ≡ done tt (removed va (pgnum (pte_addr pte)) (pte_at (pde_of k (kva d) va) va) k)
  unfolding page_remove
  page_remove-some pte e m =
      rw (page_lookup-leaf k (kva d) va fits table-InMemory mapped, e, page_decref-ok)
    where
      mapped : (x : ℕ) → leaf k.mem (kva d) va ≡ some x → InMemory k x
      mapped x h = let same : pte ≡ x = ground arith in subst (λ t. pgnum t < k.npages) same m

-- A write to the entry of `va` is seen at `va` alone.
module _ (npages : ℕ) (mem : ℕ → ℕ) (d va v : ℕ) (dir : Directory npages mem d)
    (user : pdx va ≢ 957) (table : present (mem (pde_ptr (kva d) va)) ≡ true) where
  abbrev pub entry_ptr : ℕ
  entry_ptr = pte_at (mem (pde_ptr (kva d) va)) va

  -- The entry stands outside the directory.
  pub word_outside : (i : ℕ) → i < 1024 → word d i ≢ entry_ptr
  word_outside i h = rw (pte_at-word (mem (pde_ptr (kva d) va)) va) (
      word_ne d (pgnum (mem (pde_ptr (kva d) va))) i (ptx va) h (ptx-lt va)
        (inl λ same. (dir.tables (pdx va) (pdx-lt va, user) table).1 (sym same)))

  pub entry_outside : (va' : ℕ) → pde_ptr (kva d) va' ≢ entry_ptr
  entry_outside va' = word_outside (pdx va') (pdx-lt va')

  pub leaf-write_self :
      leaf (update mem entry_ptr v) (kva d) va ≡ (if present v then some v else none)
  leaf-write_self =
      rw (update_ne mem entry_ptr (pde_ptr (kva d) va) v (entry_outside va), table)
        (ap if_present (update_self mem entry_ptr v))

  pub leaf-write_ne :
      (va' : ℕ)
      → pdx va' ≢ 957
      → Apart va va'
      → leaf (update mem entry_ptr v) (kva d) va' ≡ leaf mem (kva d) va'
  leaf-write_ne va' user' other =
      rw (update_ne mem entry_ptr (pde_ptr (kva d) va') v (entry_outside va')) (
        leaf_in_frame mem (update mem entry_ptr v) pde' pde' va' refl refl
          (λ h. update_ne mem entry_ptr (pte_at pde' va') v (elsewhere h other)))
    where
      pde' : ℕ
      pde' = mem (pde_ptr (kva d) va')

      elsewhere : present pde' ≡ true → Apart va va' → pte_at pde' va' ≢ entry_ptr
      elsewhere h o =
          rw (pte_at-word pde' va', pte_at-word (mem (pde_ptr (kva d) va)) va)
            (word_ne (pgnum pde') (pgnum (mem (pde_ptr (kva d) va))) (ptx va') (ptx va) (ptx-lt va')
              (ptx-lt va)
              (elim o [
                | inl n ↦ inl (
                    dir.apart (pdx va') (pdx va) (pdx-lt va', user') (pdx-lt va, user)
                      (λ e. n (sym e)) h table)
                | inr n ↦ inr (λ e. n (sym e))
              ]))

-- What page_remove leaves, by the entry that it finds: nothing to do, or the mapping gone, every
-- other one kept, one reference less on the page, the page on the free list exactly when that
-- was the last, and the TLB entry invalidated.
abbrev pub Unmapped : Kernel → ℕ → ℕ → Option ℕ → Kernel → Type 0
Unmapped k d va none k' = k' ≡ k
Unmapped k d va (some pte) k' =
    let pg = pgnum (pte_addr pte) in
    (leaf k'.mem (kva d) va ≡ none)
    × ((va' : ℕ) → pdx va' ≢ 957 → Apart va va' → leaf k'.mem (kva d) va' ≡ leaf k.mem (kva d) va')
    × ((q : ℕ)
        → (k'.pages q).pp_ref
          ≡ (if q == pg then ((k.pages pg).pp_ref + 65535) % 65536 else (k.pages q).pp_ref))
    × (k'.page_free_list ≡ (if (k.pages pg).pp_ref == 1 then some pg else k.page_free_list))
    × (k'.invalidated ≡ va ∷ k.invalidated)

module _ (k : Kernel) (d va : ℕ) (fits : Fits k) (dir : Directory k.npages k.mem d)
    (user : pdx va ≢ 957) where
  removed-Unmapped :
      (pte : ℕ)
      → leaf k.mem (kva d) va ≡ some pte
      → (k.pages (pgnum (pte_addr pte))).pp_ref < 65536
      → Unmapped k d va
          (some pte)
          (removed va (pgnum (pte_addr pte)) (pte_at (pde_of k (kva d) va) va) k)
  unfolding present
  removed-Unmapped pte e small = rw (mem-dropped (pgnum (pte_addr pte)) k) (
    leaf-write_self k.npages k.mem d va 0 dir user table,
    leaf-write_ne k.npages k.mem d va 0 dir user table,
    (λ q. pp_ref-dropped (pgnum (pte_addr pte)) q k),
    page_free_list-dropped (pgnum (pte_addr pte)) k small,
    kept,
  )
    where
      kept : va ∷ (dropped (pgnum (pte_addr pte)) k).invalidated ≡ va ∷ k.invalidated
      kept = ap (λ l. va ∷ l) (invalidated-dropped (pgnum (pte_addr pte)) k)

      table : present (pde_of k (kva d) va) ≡ true
      table = ground arith

  -- Under a well-shaped directory, for an address outside the slot UVPT whose entry, if there is
  -- one, names a page of physical memory, page_remove returns: with nothing changed where there is
  -- no entry, and otherwise as `Unmapped` says.
  pub page_remove-Unmapped :
      ((q : ℕ) → (k.pages q).pp_ref < 65536)
      → ((pte : ℕ) → leaf k.mem (kva d) va ≡ some pte → InMemory k pte)
      → Returns (λ _ k'. Unmapped k d va (leaf k.mem (kva d) va) k') (page_remove (kva d) va k)
  page_remove-Unmapped small mapped = elim (Option-cases (leaf k.mem (kva d) va)) [
    | inl e ↦ rw (page_remove-none k d va fits dir user e, e) refl
    | inr (pte, e) ↦
        rw (page_remove-some k d va fits dir user pte e (mapped pte e), e)
          (removed-Unmapped pte e (small (pgnum (pte_addr pte))))
  ]
