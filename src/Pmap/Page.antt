-- ===== src/Pmap/Page.antt =====
-- The physical page allocator of kern/pmap.c: page_alloc, page_free, page_decref. Free pages are
-- linked through `pp_link`.
pub mod FreeList
pub mod Alloc
pub mod Release
use lab3a.Base.{
  ℕ, ◌+◌, ◌*◌, ◌%◌, ◌≡◌, bit_and, Option, none, some, ◌&&◌, leb, ltb, ◌==◌, if◌then◌else◌, update,
}
use lab3a.Mmu.{pgsize}
use lab3a.Machine.{
  Kernel, M, pure, gets, modify, ◌>>=◌, ◌>>◌, set_page, set_link, set_ref, and_then,
}
use lab3a.Machine.Convert.{page2kva}

abbrev pub alloc_zero : ℕ
alloc_zero = 1

-- memset(p, 0, PGSIZE)
abbrev pub zero_page : ℕ → (ℕ → ℕ) → ℕ → ℕ
zero_page p mem q = if leb p q && ltb q (p + pgsize) then 0 else mem q

clear_page : ℕ → M (Unit {0})
clear_page p = modify (λ k. record k { mem = zero_page p k.mem })

-- page_alloc from a free list that begins at the given page
alloc_from : ℕ → Option ℕ → M (Option ℕ)
unfolding clear_page
alloc_from flags none = pure none
alloc_from flags (some page) = do
  link ← gets (λ k. (k.pages page).pp_link)
  modify (λ k. record k { page_free_list = link })
  set_link page none
  if bit_and flags alloc_zero == 0
      then pure (some page)
      else do v ← page2kva page; clear_page v; pure (some page)

unfoldable pub page_alloc : ℕ → M (Option ℕ)
unfolding alloc_from
page_alloc flags = do head ← gets (λ k. k.page_free_list); alloc_from flags head

unfoldable pub page_free : ℕ → M (Unit {0})
page_free pp = do
  head ← gets (λ k. k.page_free_list)
  set_link pp head
  modify (λ k. record k { page_free_list = some pp })

-- `--pp->pp_ref` on 16 bits
unfoldable pub page_decref : ℕ → M (Unit {0})
page_decref pp = do
  r ← gets (λ k. ((k.pages pp).pp_ref + 65535) % 65536)
  set_ref pp r
  if r == 0 then page_free pp else pure tt
