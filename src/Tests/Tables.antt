-- ===== src/Tests/Tables.antt =====
-- Addresses, page tables and the check of user memory at the small machine.
use lab3a.Pmap.Walk.Insert.{leaf_entry}
use lab3a.Base.{ℕ, ◌+◌, ◌*◌, ◌≡◌, ◌≢◌, refl, some, [], ◌∷◌, arith}
use lab3a.Mmu.{pdx, ptx, present, pgnum, pte_addr}
use lab3a.Machine.Convert.{kva, page2pa}
use lab3a.Machine.Runs.{Returns}
use lab3a.Pmap.Walk.{page_insert, page_remove, pde_ptr}
use lab3a.Pmap.Walk.Translate.{leaf}
use lab3a.Pmap.Walk.Remove.{Unmapped, page_remove-Unmapped}
use lab3a.Pmap.Walk.Map.{InsertOutcome, MapsMemory, refs_of}
use lab3a.Pmap.Walk.Insertion.{page_insert-InsertOutcome}
use lab3a.Pmap.Walk.Again.{page_insert_again}
use lab3a.Tests.State.{small, small-Fits, small-FreeList, small-Directory, small-Fresh}

abbrev user_va : ℕ
user_va = 0x800000

ordinary_va : pdx user_va ≢ 957
unfolding pdx
ordinary_va = omega arith

-- What the small directory maps is in physical memory.
small-MapsMemory : MapsMemory small 400 user_va
unfolding pdx ptx pgnum pte_addr present
small-MapsMemory pte e = ground arith

page_remove-Unmapped_example :
    Returns
      (λ _ k'. Unmapped small 400 user_va (leaf small.mem (kva 400) user_va) k')
      (page_remove (kva 400) user_va small)
page_remove-Unmapped_example =
    page_remove-Unmapped small 400 user_va small-Fits small-Directory ordinary_va
      (λ q. ground arith) small-MapsMemory

page_insert-InsertOutcome_example :
    Returns
      (InsertOutcome small 400 user_va 302 6
        (present (small.mem (pde_ptr (kva 400) user_va)))
        (300 ∷ 301 ∷ 302 ∷ []))
      (page_insert (kva 400) 302 user_va 6 small)
page_insert-InsertOutcome_example =
    page_insert-InsertOutcome small 400 user_va 302 6 (300 ∷ 301 ∷ 302 ∷ []) small-Fits
      small-Directory ordinary_va (omega arith) (omega arith) small-FreeList
      (
        small-Fresh 300 (omega arith),
        (small-Fresh 301 (omega arith), (small-Fresh 302 (omega arith), tt)),
      )
      small-MapsMemory

page_insert_again_example :
    Returns
      (λ r k'.
        (r ≡ 0)
        × (leaf k'.mem (kva 400) user_va ≡ some (leaf_entry 402 2))
        × (refs_of k' 402 ≡ refs_of small 402)
        × (k'.page_free_list ≡ small.page_free_list))
      (page_insert (kva 400) 402 user_va 2 small)
page_insert_again_example =
    page_insert_again small 400 user_va 402 2 small-Fits small-Directory ordinary_va (omega arith)
      (omega arith) (402 * 4096 + 7) (unfold pdx ptx present pte_addr in refl)
      (unfold pte_addr page2pa in refl) (omega arith) (omega arith)
