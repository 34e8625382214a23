-- ===== src/Pmap/Page/Release.antt =====
-- page_free and page_decref give pages back to the free list.
use lab3a.Base.{
  ℕ, ◌+◌, ◌%◌, ◌<◌, ◌≡◌, ◌≢◌, refl, ap, ◌∙◌, some, true, false, List, ◌∷◌, arith, ◌==◌,
  if◌then◌else◌, update, has, All-map, update-has, update_ne, subst, Bool-cases, inl, inr,
}
use lab3a.Machine.{Kernel, PageInfo, done, ◌>>◌, set_page}
use lab3a.Machine.Runs.{Returns}
use lab3a.Pmap.Page.{page_alloc, page_free, page_decref}
use lab3a.Pmap.Page.FreeList.{Chain, FreeList, Chain-frame}

-- The state after `p` was put in front of the free list.
abbrev pub freed : ℕ → Kernel → Kernel
freed p k = record k {
  page_free_list = some p;
  pages = update k.pages p (record (k.pages p) { pp_link = k.page_free_list });
}

pub page_free-ok : (p : ℕ) (k : Kernel) → page_free p k ≡ done tt (freed p k)
unfolding page_free
page_free-ok p k = refl

pub freed-FreeList :
    (k : Kernel) (p : ℕ) (xs : List ℕ)
    → FreeList k xs
    → has p xs ≡ false
    → (k.pages p).pp_ref ≡ 0
    → p < k.npages
    → FreeList (freed p k) (p ∷ xs)
freed-FreeList k p xs f out idle h = record {
  chain = (
    refl,
    subst (λ l. Chain (freed p k).pages l xs) link
        (Chain-frame k.pages (freed p k).pages _ xs
          (λ q m. ap (λ (i : PageInfo). i.pp_link) (same q m)) f.chain),
  );
  distinct = (out, f.distinct);
  unused = (
    ground arith,
    All-map _ _ xs (λ q m r. ap (λ (i : PageInfo). i.pp_ref) (same q m) ∙ r) f.unused,
  );
  in_range = (h, f.in_range);
}
  where
    link : k.page_free_list ≡ ((freed p k).pages p).pp_link
    link = ground arith

    same : (q : ℕ) → has q xs ≡ true → (freed p k).pages q ≡ k.pages q
    same q m = update-has k.pages p q _ xs out m

-- What page_free leaves: the page in front of the free list, and every reference count, every
-- other link and memory as they were; page_alloc(0) then gives the page back and restores the list.
abbrev pub Released : Kernel → ℕ → List ℕ → Kernel → Type 0
Released k p xs k' =
    FreeList k' (p ∷ xs)
    × ((q : ℕ) → (k'.pages q).pp_ref ≡ (k.pages q).pp_ref)
    × ((q : ℕ) → q ≢ p → k'.pages q ≡ k.pages q)
    × (k'.mem ≡ k.mem)
    × Returns (λ r k''. (r ≡ some p) × (k''.page_free_list ≡ k.page_free_list)) (page_alloc 0 k')

-- Freeing a page of physical memory that is not on the free list and has no reference leaves a
-- state as `Released` says.
pub page_alloc-page_free :
    (k : Kernel) (p : ℕ) (xs : List ℕ)
    → FreeList k xs
    → has p xs ≡ false
    → (k.pages p).pp_ref ≡ 0
    → p < k.npages
    → Returns (λ _ k'. Released k p xs k') (page_free p k)
unfolding page_alloc
page_alloc-page_free k p xs f out idle h = rw (page_free-ok p k) (
  freed-FreeList k p xs f out idle h,
  (λ q. ground arith),
  (λ q ne. update_ne k.pages p q _ ne),
  refl,
  (refl, ground arith),
)

-- What page_decref leaves: one reference less on 16 bits, and the page on the free list exactly
-- when none is left.
abbrev pub Dropped : Kernel → ℕ → Kernel → Type 0
Dropped k p k' =
    ((k'.pages p).pp_ref ≡ ((k.pages p).pp_ref + 65535) % 65536)
    × ((q : ℕ) → q ≢ p → k'.pages q ≡ k.pages q)
    × (k'.mem ≡ k.mem)
    × (k'.page_free_list ≡ (if (k.pages p).pp_ref == 1 then some p else k.page_free_list))

-- For a 16-bit reference count, page_decref takes one reference from the page, frees it exactly
-- when that was the last (a count of 0 wraps to 65535 and frees nothing), and changes no other
-- page and no memory.
pub page_decref-Dropped :
    (k : Kernel) (p : ℕ)
    → (k.pages p).pp_ref < 65536
    → Returns (λ _ k'. Dropped k p k') (page_decref p k)
unfolding page_decref page_free
page_decref-Dropped k p small = ground arith

-- A page freed twice in a row is handed out by each of the next two calls of page_alloc(0): page_free
-- has no check against it.
pub page_free_twice :
    (k : Kernel) (p : ℕ)
    → Returns
        (λ r k'. (r ≡ some p) × Returns (λ s k''. s ≡ some p) (page_alloc 0 k'))
        ((page_free p >> page_free p >> page_alloc 0) k)
unfolding page_free page_alloc
page_free_twice k p = ground arith

-- The state that page_decref leaves.
abbrev pub dropped : ℕ → Kernel → Kernel
dropped p k =
    let r = ((k.pages p).pp_ref + 65535) % 65536 in
    let k' = set_page p (record (k.pages p) { pp_ref = r }) k in if r == 0 then freed p k' else k'

pub page_decref-ok : (p : ℕ) (k : Kernel) → page_decref p k ≡ done tt (dropped p k)
unfolding page_decref page_free
page_decref-ok p k = elim (Bool-cases ((((k.pages p).pp_ref + 65535) % 65536) == 0)) [
  | inl e ↦ rw e
  | inr e ↦ rw e
]

pub mem-dropped : (p : ℕ) (k : Kernel) → (dropped p k).mem ≡ k.mem
mem-dropped p k = elim (Bool-cases ((((k.pages p).pp_ref + 65535) % 65536) == 0)) [
  | inl e ↦ rw e
  | inr e ↦ rw e
]

pub pp_ref-dropped :
    (p q : ℕ) (k : Kernel)
    → ((dropped p k).pages q).pp_ref
      ≡ (if q == p then ((k.pages p).pp_ref + 65535) % 65536 else (k.pages q).pp_ref)
pp_ref-dropped p q k = ground arith

pub page_free_list-dropped :
    (p : ℕ) (k : Kernel)
    → (k.pages p).pp_ref < 65536
    → (dropped p k).page_free_list ≡ (if (k.pages p).pp_ref == 1 then some p else k.page_free_list)
page_free_list-dropped p k h = ground arith

pub invalidated-dropped : (p : ℕ) (k : Kernel) → (dropped p k).invalidated ≡ k.invalidated
invalidated-dropped p k = ground arith

pub npages-dropped : (p : ℕ) (k : Kernel) → (dropped p k).npages ≡ k.npages
npages-dropped p k = ground arith
