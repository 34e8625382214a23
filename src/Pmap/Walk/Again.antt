-- ===== src/Pmap/Walk/Again.antt =====
-- page_insert of a page at the address where it is already.
use lab3a.Pmap.Walk.Remove.{table-InMemory}
use lab3a.Pmap.Page.Release.{pp_ref-dropped}
use lab3a.Pmap.Walk.Insert.{insert_at-ok, leaf_entry, evicted, bumped, inserted}
use lab3a.Machine.Runs.{Returns}
use lab3a.Pmap.Walk.{page_insert, pde_ptr}
use lab3a.Mmu.Entry.{pgnum-pte_addr}
use lab3a.Pmap.Walk.Runs.{pde_of, walk-present}
use lab3a.Pmap.Walk.Translate.{Directory, leaf, pte_at}
use lab3a.Mmu.{pdx, present, pgnum, pte_addr}
use lab3a.Machine.Convert.{Fits, kva, page2pa, page2pa-eq}
use lab3a.Base.{ℕ, ◌<◌, ◌≡◌, ◌≢◌, refl, sym, ap, subst, some, true, arith, ◌∙◌}
use lab3a.Machine.{Kernel}
use lab3a.Pmap.Walk.Map.{refs_of, Mapped, MapsMemory, inserted-Mapped, refs-bumped}

-- The entry that is there maps the page itself: what was added is taken away again.
evicted-same :
    (va ptr pp : ℕ) (k : Kernel)
    → present (k.mem ptr) ≡ true
    → pgnum (pte_addr (k.mem ptr)) ≡ pp
    → 0 < refs_of k pp
    → refs_of k pp < 65535
    → (refs_of (evicted va ptr (bumped pp k)) pp ≡ refs_of k pp)
      × ((evicted va ptr (bumped pp k)).page_free_list ≡ k.page_free_list)
evicted-same va ptr pp k h number low high =
    rw (h, number)
      (pp_ref-dropped pp pp (bumped pp k) ∙ ground (arith, refs-bumped pp k pp), ground arith)

module _ (k : Kernel) (d va pp perm : ℕ) (fits : Fits k) (dir : Directory k.npages k.mem d)
    (user : pdx va ≢ 957) (exists : pp < k.npages) (small : perm < 4096) where
  -- A page with a count from 1 to 65534 that is inserted again at the address where it is mapped,
  -- with whatever permissions, is mapped with the new ones, keeps its reference count and is not
  -- freed.
  pub page_insert_again :
      (pte : ℕ)
      → leaf k.mem (kva d) va ≡ some pte
      → pte_addr pte ≡ page2pa pp
      → 0 < refs_of k pp
      → refs_of k pp < 65535
      → Returns
          (λ r k'.
            (r ≡ 0)
            × (leaf k'.mem (kva d) va ≡ some (leaf_entry pp perm))
            × (refs_of k' pp ≡ refs_of k pp)
            × (k'.page_free_list ≡ k.page_free_list))
          (page_insert (kva d) pp va perm k)
  unfolding page_insert
  page_insert_again pte e same low high =
      rw
        (
          walk-present k (kva d) va fits true table (table-InMemory k d va fits dir user table),
          insert_at-ok k d va fits dir user table pp perm in_memory,
        )
        (refl, mapped.0, counts.0, counts.1)
    where
      table : present (pde_of k (kva d) va) ≡ true
      table = ground arith

      ptr : ℕ
      ptr = pte_at (pde_of k (kva d) va) va

      set : present (k.mem ptr) ≡ true
      set = ground arith

      is_pte : k.mem ptr ≡ pte
      is_pte = ground arith

      number : pgnum (pte_addr pte) ≡ pp
      number = ap pgnum (same ∙ page2pa-eq pp (omega arith)) ∙ (unfold pgnum in omega arith)

      in_memory : MapsMemory k d va
      in_memory x q =
          let eq : pte ≡ x = ground arith in
          subst (λ t. pgnum t < k.npages) eq
            (subst (λ t. t < k.npages) (sym number ∙ pgnum-pte_addr pte) exists)

      mapped : Mapped k d va pp perm (refs_of k) (inserted ptr pp va perm (pde_ptr (kva d) va) k)
      mapped = inserted-Mapped k d va pp perm fits dir user exists small table

      counts :
          (refs_of (evicted va ptr (bumped pp k)) pp ≡ refs_of k pp)
          × ((evicted va ptr (bumped pp k)).page_free_list ≡ k.page_free_list)
      counts =
          evicted-same va ptr pp k set (ap (λ (x : ℕ). pgnum (pte_addr x)) is_pte ∙ number) low high
