-- ===== src/Pmap/Walk/Map.antt =====
-- page_insert as its callers see it, on every branch.
use lab3a.Mmu.Entry.{pte_addr-entry, present-entry}
use lab3a.Base.{
  ℕ, ◌+◌, ◌%◌, ◌≤◌, ◌<◌, ◌≡◌, ◌≢◌, inl, inr, refl, sym, ap, Option, none, some, true, false, bit_or,
  Bool, Bool-cases, update, List, [], ◌∷◌, arith, ◌==◌, if◌then◌else◌, ◌∙◌, fun_ext, subst,
}
use lab3a.Mmu.{pgnum, pdx, pte_addr, present, neg, e_no_mem}
use lab3a.Machine.{Kernel, done}
use lab3a.Machine.Convert.{kva, Fits, page2pa}
use lab3a.Machine.Runs.{Returns}
use lab3a.Pmap.Page.Release.{pp_ref-dropped, npages-dropped}
use lab3a.Pmap.Walk.{pde_ptr, page_insert, check_va2pa}
use lab3a.Pmap.Walk.Translate.{pte_at, leaf, Apart, Directory}
use lab3a.Pmap.Walk.Runs.{pde_of, InMemory, walk-present, check_va2pa-leaf, frame}
use lab3a.Pmap.Walk.Remove.{table-InMemory}
use lab3a.Pmap.Walk.Insert.{
  leaf_entry, inserted, bumped, evicted, insert_at-ok, mem-evicted, mapped_mem-Directory,
  leaf-mapped_self, leaf-mapped_ne, mapped_mem,
}

abbrev pub refs_of : Kernel → ℕ → ℕ
refs_of k q = (k.pages q).pp_ref

-- One reference more, and one less, on 16 bits.
abbrev pub plus : (ℕ → ℕ) → ℕ → ℕ → ℕ
plus r p q = if q == p then (r p + 1) % 65536 else r q

abbrev pub minus : (ℕ → ℕ) → ℕ → ℕ → ℕ
minus r p q = if q == p then (r p + 65535) % 65536 else r q

-- The counts when `pp` took the place of what the entry `old` maps.
abbrev pub refs_after : Option ℕ → ℕ → (ℕ → ℕ) → ℕ → ℕ
refs_after none pp r = plus r pp
refs_after (some pte) pp r = minus (plus r pp) (pgnum (pte_addr pte))

-- The address `va` now translates to the page `pp` with the given permissions, also by
-- check_va2pa; every other address outside the slot UVPT translates as before; the directory
-- keeps its shape; and the reference counts follow, from those given.
abbrev pub Mapped : Kernel → ℕ → ℕ → ℕ → ℕ → (ℕ → ℕ) → Kernel → Type 0
Mapped k d va pp perm refs k' =
    (leaf k'.mem (kva d) va ≡ some (leaf_entry pp perm))
    × (check_va2pa (kva d) va k' ≡ done (page2pa pp) k')
    × ((va' : ℕ) → pdx va' ≢ 957 → Apart va va' → leaf k'.mem (kva d) va' ≡ leaf k.mem (kva d) va')
    × Directory k.npages k'.mem d
    × ((q : ℕ) → refs_of k' q ≡ refs_after (leaf k.mem (kva d) va) pp refs q)

-- By whether a table is there, and by the free list.
abbrev pub InsertOutcome : Kernel → ℕ → ℕ → ℕ → ℕ → Bool → List ℕ → ℕ → Kernel → Type 0
InsertOutcome k d va pp perm true xs r k' = (r ≡ 0) × Mapped k d va pp perm (refs_of k) k'
InsertOutcome k d va pp perm false [] r k' = (r ≡ neg e_no_mem) × (k' ≡ k)
InsertOutcome k d va pp perm false (p ∷ xs) r k' =
    (r ≡ 0) × Mapped k d va pp perm (plus (refs_of k) p) k'

-- Every page of physical memory that the directory maps at `va`.
abbrev pub MapsMemory : Kernel → ℕ → ℕ → Type 0
MapsMemory k d va = (pte : ℕ) → leaf k.mem (kva d) va ≡ some pte → InMemory k pte

pub refs-bumped : (pp : ℕ) (k : Kernel) (q : ℕ) → refs_of (bumped pp k) q ≡ plus (refs_of k) pp q
refs-bumped pp k q = ground arith

pub pte_addr-leaf_entry : (pp perm : ℕ) → perm < 4096 → pte_addr (leaf_entry pp perm) ≡ page2pa pp
pte_addr-leaf_entry pp perm small =
    pte_addr-entry (page2pa pp) perm small ∙ (unfold pte_addr page2pa in omega arith)

npages-evicted : (va ptr : ℕ) (k : Kernel) → (evicted va ptr k).npages ≡ k.npages
npages-evicted va ptr k = elim (Bool-cases (present (k.mem ptr))) [
  | inl h ↦ rw h (npages-dropped (pgnum (pte_addr (k.mem ptr))) k)
  | inr h ↦ rw h
]

module _ (k : Kernel) (d va pp perm : ℕ) (fits : Fits k) (dir : Directory k.npages k.mem d)
    (user : pdx va ≢ 957) (exists : pp < k.npages) (small : perm < 4096) where
  refs_evicted :
      (table : present (pde_of k (kva d) va) ≡ true)
      → (q : ℕ)
      → refs_of (evicted va (pte_at (pde_of k (kva d) va) va) (bumped pp k)) q
        ≡ refs_after (leaf k.mem (kva d) va) pp (refs_of k) q
  refs_evicted table q = elim (Bool-cases (present pte)) [
    | inl h ↦
        rw (table, h)
          (pp_ref-dropped (pgnum (pte_addr pte)) q (bumped pp k)
            ∙ ap (λ (r : ℕ → ℕ). minus r (pgnum (pte_addr pte)) q) (fun_ext (refs-bumped pp k)))
    | inr h ↦ rw (table, h) (refs-bumped pp k q)
  ]
    where
      pte : ℕ
      pte = k.mem (pte_at (pde_of k (kva d) va) va)

  pub inserted-Mapped :
      (table : present (pde_of k (kva d) va) ≡ true)
      → Mapped k d va pp perm
          (refs_of k)
          (inserted (pte_at (pde_of k (kva d) va) va) pp va perm (pde_ptr (kva d) va) k)
  inserted-Mapped table = (entry, checked, others, shape, refs_evicted table)
    where
      ptr : ℕ
      ptr = pte_at (pde_of k (kva d) va) va

      k' : Kernel
      k' = inserted ptr pp va perm (pde_ptr (kva d) va) k

      written : mapped_mem ptr (leaf_entry pp perm) (pde_ptr (kva d) va) perm k.mem ≡ k'.mem
      written =
          ap (λ (m : ℕ → ℕ). update m (pde_ptr (kva d) va) (bit_or (m (pde_ptr (kva d) va)) perm))
            (sym (mem-evicted k d va fits dir user table pp (leaf_entry pp perm)))

      entry : leaf k'.mem (kva d) va ≡ some (leaf_entry pp perm)
      entry =
          subst (λ m. leaf m (kva d) va ≡ some (leaf_entry pp perm)) written
            (leaf-mapped_self k.npages k.mem d va (leaf_entry pp perm) perm dir user table small
              (present-entry (bit_or (page2pa pp) perm)))

      others :
          (va' : ℕ)
          → pdx va' ≢ 957
          → Apart va va'
          → leaf k'.mem (kva d) va' ≡ leaf k.mem (kva d) va'
      others va' user' other =
          subst (λ m. leaf m (kva d) va' ≡ leaf k.mem (kva d) va') written
            (leaf-mapped_ne k.npages k.mem d va (leaf_entry pp perm) perm dir user table small va'
              user' other)

      shape : Directory k.npages k'.mem d
      shape =
          subst (λ m. Directory k.npages m d) written
            (mapped_mem-Directory k.npages k.mem d va (leaf_entry pp perm) perm dir user table
              small)

      size : k.npages ≡ k'.npages
      size = sym (npages-evicted va ptr (bumped pp k))

      fits' : Fits k'
      fits' = subst (λ n. n ≤ 65536) size fits

      checked : check_va2pa (kva d) va k' ≡ done (page2pa pp) k'
      checked =
          check_va2pa-leaf k' (kva d) va fits'
            (table-InMemory k' d va fits' (subst (λ n. Directory n k'.mem d) size shape) user)
          ∙ ap (λ (a : ℕ). done a k') (ap frame entry ∙ pte_addr-leaf_entry pp perm small)

  -- The branch of page_insert where the table is there.
  pub insert-present :
      present (pde_of k (kva d) va) ≡ true
      → MapsMemory k d va
      → Returns
          (λ r k'. (r ≡ 0) × Mapped k d va pp perm (refs_of k) k')
          (page_insert (kva d) pp va perm k)
  unfolding page_insert
  insert-present table mapped =
      rw
        (
          walk-present k (kva d) va fits true table (table-InMemory k d va fits dir user table),
          insert_at-ok k d va fits dir user table pp perm mapped,
        )
        (refl, inserted-Mapped table)
