-- ===== src/Pmap/Walk/Runs.antt =====
-- How pgdir_walk, page_lookup and check_va2pa run, branch by branch.
use lab3a.Base.{
  ℕ, ◌+◌, ◌*◌, ◌-◌, ◌^◌, ◌<◌, ◌≡◌, Option, none, some, true, false, arith, ◌%◌, update, Bool-cases,
  Bool, inl, inr, update_self, ◌∙◌, ap,
}
use lab3a.Mmu.{kernbase, pgnum, ptx, pte_addr, present}
use lab3a.Mmu.Entry.{
  table_entry, pte_addr-table_entry, pgnum-pte_addr, pgnum_of_pte_addr, pte_addr_page,
}
use lab3a.Machine.{Kernel, done}
use lab3a.Machine.Convert.{kva, Fits, kaddr, page2pa, pa2page-ok, page2pa-eq}
use lab3a.Pmap.Page.{alloc_zero}
use lab3a.Pmap.Page.Alloc.{taken_zero, page_alloc-zero, page_alloc-none}
use lab3a.Pmap.Walk.{
  pde_ptr, pte_ptr, install_table, lookup_at, pgdir_walk, page_lookup, check_va2pa,
}
use lab3a.Pmap.Walk.Translate.{pte_at, leaf}

abbrev pub pde_of : Kernel → ℕ → ℕ → ℕ
pde_of k pgdir va = k.mem (pde_ptr pgdir va)

-- What page_lookup makes of an entry that it finds at `ptr`.
abbrev pub found : ℕ → Option ℕ → Option (ℕ × ℕ)
found ptr none = none
found ptr (some pte) = some (pgnum (pte_addr pte), ptr)

abbrev pub frame : Option ℕ → ℕ
frame none = 2 ^ 32 - 1
frame (some pte) = pte_addr pte

-- An entry of a frame that physical memory has.
abbrev pub InMemory : Kernel → ℕ → Type 0
InMemory k pte = pgnum pte < k.npages

pub pte_ptr-ok :
    (k : Kernel) (pde va : ℕ) → Fits k → InMemory k pde → pte_ptr pde va k ≡ done (pte_at pde va) k
unfolding pte_ptr kaddr pgnum pte_addr
pte_ptr-ok k pde va fits h = ground arith

-- The state after the cleared page `p` became the table that the directory entry at `ptr` names.
abbrev pub installed : ℕ → ℕ → Kernel → Kernel
installed p ptr k = record k {
  pages = update k.pages p (record (k.pages p) { pp_ref = ((k.pages p).pp_ref + 1) % 65536 });
  mem = update k.mem ptr (table_entry (page2pa p));
}

installed-address : (p : ℕ) → p < 65536 → pte_addr (table_entry (page2pa p)) ≡ p * 4096
installed-address p h =
    pte_addr-table_entry (page2pa p) ∙ ap pte_addr (page2pa-eq p h) ∙ pte_addr_page p

pub installed-number : (p : ℕ) → p < 65536 → pgnum (table_entry (page2pa p)) ≡ p
installed-number p h = pgnum_of_pte_addr (table_entry (page2pa p)) p (installed-address p h)

pub install_table-ok :
    (k : Kernel) (p ptr va : ℕ)
    → Fits k
    → p < k.npages
    → install_table ptr va (some p) k ≡ done (some (kva p + 4 * ptx va)) (installed p ptr k)
unfolding install_table
install_table-ok k p ptr va fits h =
    rw (pte_ptr-ok (installed p ptr k) new va fits (rw (self, number) h), self)
      (ap (λ a. done (some (kernbase + a + 4 * ptx va)) (installed p ptr k)) address)
  where
    new : ℕ
    new = update k.mem ptr (table_entry (page2pa p)) ptr

    self : new ≡ table_entry (page2pa p)
    self = update_self k.mem ptr (table_entry (page2pa p))

    address : pte_addr (table_entry (page2pa p)) ≡ p * 4096
    address = installed-address p (omega arith)

    number : pgnum (table_entry (page2pa p)) ≡ p
    number = installed-number p (omega arith)

module _ (k : Kernel) (pgdir va : ℕ) (fits : Fits k) where
  -- The table is there.
  pub walk-present :
      (create : Bool)
      → present (pde_of k pgdir va) ≡ true
      → InMemory k (pde_of k pgdir va)
      → pgdir_walk pgdir va create k ≡ done (some (pte_at (pde_of k pgdir va) va)) k
  unfolding pgdir_walk
  walk-present create h m = rw (h, pte_ptr-ok k (pde_of k pgdir va) va fits m)

  -- There is none, and the caller does not want one.
  pub walk-absent : present (pde_of k pgdir va) ≡ false → pgdir_walk pgdir va false k ≡ done none k
  unfolding pgdir_walk
  walk-absent h = rw h

  -- There is none, and no page for one.
  pub walk-no_mem :
      present (pde_of k pgdir va) ≡ false
      → k.page_free_list ≡ none
      → pgdir_walk pgdir va true k ≡ done none k
  unfolding pgdir_walk
  walk-no_mem h e = rw (h, page_alloc-none alloc_zero k e)

  -- There is none, and the page `p` becomes one.
  pub walk-create :
      (p : ℕ)
      → present (pde_of k pgdir va) ≡ false
      → k.page_free_list ≡ some p
      → p < k.npages
      → pgdir_walk pgdir va true k
        ≡ done (some (kva p + 4 * ptx va)) (installed p (pde_ptr pgdir va) (taken_zero p k))
  unfolding pgdir_walk
  walk-create p h e m =
      rw (h, page_alloc-zero k p fits m e)
        (install_table-ok (taken_zero p k) p (pde_ptr pgdir va) va fits m)

  -- page_lookup finds exactly the entry that translates the address.
  pub page_lookup-leaf :
      (present (pde_of k pgdir va) ≡ true → InMemory k (pde_of k pgdir va))
      → ((pte : ℕ) → leaf k.mem pgdir va ≡ some pte → InMemory k pte)
      → page_lookup pgdir va k
        ≡ done (found (pte_at (pde_of k pgdir va) va) (leaf k.mem pgdir va)) k
  unfolding page_lookup
  page_lookup-leaf table page = elim (Bool-cases (present (pde_of k pgdir va))) [
    | inl h ↦ rw (walk-present false h (table h)) (lookup_at-leaf h page)
    | inr h ↦ rw (walk-absent h, h)
  ]
    where
      lookup_at-leaf :
          present (pde_of k pgdir va) ≡ true
          → ((pte : ℕ) → leaf k.mem pgdir va ≡ some pte → InMemory k pte)
          → lookup_at (some (pte_at (pde_of k pgdir va) va)) k
            ≡ done (found (pte_at (pde_of k pgdir va) va) (leaf k.mem pgdir va)) k
      lookup_at-leaf h page = elim (Bool-cases (present pte)) [
        | inl e ↦ rw (e, h, pa2page-ok k (pte_addr pte) (rw pgnum-pte_addr (page pte (rw (h, e)))))
        | inr e ↦ rw (e, h)
      ]
        where
          pte : ℕ
          pte = k.mem (pte_at (pde_of k pgdir va) va)

  -- check_va2pa reads the frame of that entry, and ~0 where there is none.
  pub check_va2pa-leaf :
      (present (pde_of k pgdir va) ≡ true → InMemory k (pde_of k pgdir va))
      → check_va2pa pgdir va k ≡ done (frame (leaf k.mem pgdir va)) k
  unfolding check_va2pa
  check_va2pa-leaf table = elim (Bool-cases (present (pde_of k pgdir va))) [
    | inl h ↦ rw (h, pte_ptr-ok k (pde_of k pgdir va) va fits (table h)) (ground arith)
    | inr h ↦ rw h
  ]
