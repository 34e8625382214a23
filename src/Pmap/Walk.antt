-- ===== src/Pmap/Walk.antt =====
-- Two-level page tables: pgdir_walk, page_lookup, page_remove, page_insert, tlb_invalidate and
-- check_va2pa of kern/pmap.c. A `pte_t *` is the kernel virtual address of the word.
pub mod Translate
pub mod Runs
pub mod Remove
pub mod Insert
pub mod Create
pub mod Grow
pub mod Map
pub mod Insertion
pub mod Again
use lab3a.Base.{
  ℕ, ◌+◌, ◌-◌, ◌*◌, ◌%◌, ◌^◌, ◌≡◌, bit_and, bit_or, Option, none, some, Bool, true, false, ◌∷◌, not,
  ◌==◌, if◌then◌else◌,
}
use lab3a.Mmu.{pte_p, pte_w, pte_u, pdx, ptx, pte_addr, present, neg, e_no_mem}
use lab3a.Machine.{Kernel, M, pure, gets, modify, ◌>>=◌, ◌>>◌, set_ref, load, store, and_then}
use lab3a.Machine.Convert.{kaddr, page2pa, pa2page}
use lab3a.Pmap.Page.{alloc_zero, page_alloc, page_decref}

-- &pgdir[PDX(va)]
abbrev pub pde_ptr : ℕ → ℕ → ℕ
pde_ptr pgdir va = pgdir + 4 * pdx va

-- (pte_t *) KADDR(PTE_ADDR(pde)) + PTX(va)
pub pte_ptr : ℕ → ℕ → M ℕ
pte_ptr pde va = do table ← kaddr (pte_addr pde); pure (table + 4 * ptx va)

-- The part of pgdir_walk that follows page_alloc.
pub install_table : ℕ → ℕ → Option ℕ → M (Option ℕ)
unfolding pte_ptr
install_table pt_addr va none = pure none
install_table pt_addr va (some new_pg) = do
  r ← gets (λ k. (k.pages new_pg).pp_ref)
  set_ref new_pg ((r + 1) % 65536)
  store pt_addr (bit_or (bit_or (bit_or (page2pa new_pg) pte_u) pte_w) pte_p)
  pde ← load pt_addr
  p ← pte_ptr pde va
  pure (some p)

unfoldable pub pgdir_walk : ℕ → ℕ → Bool → M (Option ℕ)
unfolding install_table pte_ptr
pgdir_walk pgdir va create = do
  pde ← load (pde_ptr pgdir va)
  if present pde
      then (do p ← pte_ptr pde va; pure (some p))
      else if not create
      then pure none
      else do new_pg ← page_alloc alloc_zero; install_table (pde_ptr pgdir va) va new_pg

-- page_lookup's tests on what pgdir_walk returns
pub lookup_at : Option ℕ → M (Option (ℕ × ℕ))
lookup_at none = pure none
lookup_at (some p) = do
  pte ← load p
  if not (present pte) then pure none else do pg ← pa2page (pte_addr pte); pure (some (pg, p))

-- page_lookup: the page and, as the second part, what it stores through pte_store
unfoldable pub page_lookup : ℕ → ℕ → M (Option (ℕ × ℕ))
unfolding lookup_at
page_lookup pgdir va = do p ← pgdir_walk pgdir va false; lookup_at p

unfoldable pub tlb_invalidate : ℕ → ℕ → M (Unit {0})
tlb_invalidate pgdir va = modify (λ k. record k { invalidated = va ∷ k.invalidated })

-- page_remove's part after page_lookup
pub remove_at : ℕ → ℕ → Option (ℕ × ℕ) → M (Unit {0})
unfolding tlb_invalidate
remove_at pgdir va none = pure tt
remove_at pgdir va (some (pg, p)) = do page_decref pg; store p 0; tlb_invalidate pgdir va

unfoldable pub page_remove : ℕ → ℕ → M (Unit {0})
unfolding remove_at
page_remove pgdir va = do found ← page_lookup pgdir va; remove_at pgdir va found

-- page_insert's part after pgdir_walk
pub insert_at : ℕ → ℕ → ℕ → ℕ → Option ℕ → M ℕ
insert_at pgdir pp va perm none = pure (neg e_no_mem)
insert_at pgdir pp va perm (some p) = do
  r ← gets (λ k. (k.pages pp).pp_ref)
  set_ref pp ((r + 1) % 65536)
  pte ← load p
  if bit_and pte pte_p == 1 then page_remove pgdir va else pure tt
  store p (bit_or (bit_or (page2pa pp) perm) pte_p)
  pde ← load (pde_ptr pgdir va)
  store (pde_ptr pgdir va) (bit_or pde perm)
  pure 0

unfoldable pub page_insert : ℕ → ℕ → ℕ → ℕ → M ℕ
unfolding insert_at
page_insert pgdir pp va perm = do p ← pgdir_walk pgdir va true; insert_at pgdir pp va perm p

-- check_va2pa; ~0 where nothing is mapped
unfoldable pub check_va2pa : ℕ → ℕ → M ℕ
unfolding pte_ptr
check_va2pa pgdir va = do
  pde ← load (pde_ptr pgdir va)
  if not (present pde) then pure (2 ^ 32 - 1) else do
    p ← pte_ptr pde va
    pte ← load p
    if not (present pte) then pure (2 ^ 32 - 1) else pure (pte_addr pte)
