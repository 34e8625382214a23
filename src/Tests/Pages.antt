-- ===== src/Tests/Pages.antt =====
-- The page allocator at the small machine.
use lab3a.Base.{◌≡◌, refl, some, [], ◌∷◌, arith}
use lab3a.Machine.{Kernel, done, ◌>>◌}
use lab3a.Machine.Runs.{Returns}
use lab3a.Pmap.Page.{page_alloc, page_free, page_decref}
use lab3a.Pmap.Page.Alloc.{Allocated, page_alloc-cons}
use lab3a.Pmap.Page.Release.{Released, page_alloc-page_free}
use lab3a.Tests.State.{small, small-Fits, small-FreeList}

page_alloc-cons_example : Returns (Allocated 1 300 small (301 ∷ 302 ∷ [])) (page_alloc 1 small)
page_alloc-cons_example = page_alloc-cons 1 300 small (301 ∷ 302 ∷ []) small-Fits small-FreeList

page_alloc-page_free_example :
    Returns (λ _ k'. Released small 303 (300 ∷ 301 ∷ 302 ∷ []) k') (page_free 303 small)
page_alloc-page_free_example =
    page_alloc-page_free small 303 (300 ∷ 301 ∷ 302 ∷ []) small-FreeList refl refl (omega arith)

-- The last reference to page 402 goes, and the page is the next one handed out.
last_reference : (k : Kernel) × ((page_decref 402 >> page_alloc 0) small ≡ done (some 402) k)
unfolding page_decref page_free page_alloc
last_reference = (_, refl)
