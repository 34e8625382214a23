-- ===== src/Pmap/Page/Alloc.antt =====
-- page_alloc takes the first free page.
use lab3a.Base.{
  ℕ, ◌<◌, ◌≡◌, refl, inl, inr, ap, bit_and, Option, none, some, true, List, ◌∷◌, arith, ◌==◌,
  if◌then◌else◌, Bool-cases, update, has, All-map, update-has, ◌∙◌,
}
use lab3a.Machine.{Kernel, PageInfo, done}
use lab3a.Machine.Convert.{kva, Fits, page2kva-ok}
use lab3a.Machine.Runs.{Returns}
use lab3a.Pmap.Page.{alloc_zero, zero_page, page_alloc}
use lab3a.Pmap.Page.FreeList.{FreeList, Chain-frame}

-- The state after the page `p` was taken off the free list, and after it was cleared too.
abbrev pub taken : ℕ → Kernel → Kernel
taken p k = record k {
  page_free_list = (k.pages p).pp_link;
  pages = update k.pages p (record (k.pages p) { pp_link = none });
}

abbrev pub taken_zero : ℕ → Kernel → Kernel
taken_zero p k = record (taken p k) { mem = zero_page (kva p) k.mem }

module _ (k : Kernel) (p : ℕ) (fits : Fits k) (h : p < k.npages)
    (e : k.page_free_list ≡ some p) where
  pub page_alloc-plain : page_alloc 0 k ≡ done (some p) (taken p k)
  unfolding page_alloc
  page_alloc-plain = rw e

  pub page_alloc-zero : page_alloc alloc_zero k ≡ done (some p) (taken_zero p k)
  unfolding page_alloc
  page_alloc-zero = rw (e, page2kva-ok {k = taken p k} fits h)

  pub page_alloc-flags :
      (flags : ℕ)
      → page_alloc flags k
        ≡ done (some p) (if bit_and flags alloc_zero == 0 then taken p k else taken_zero p k)
  unfolding page_alloc
  page_alloc-flags flags = elim (Bool-cases (bit_and flags alloc_zero == 0)) [
    | inl z ↦ rw (e, z)
    | inr z ↦ rw (e, z, page2kva-ok {k = taken p k} fits h)
  ]

pub page_alloc-none :
    (flags : ℕ) (k : Kernel) → k.page_free_list ≡ none → page_alloc flags k ≡ done none k
unfolding page_alloc
page_alloc-none flags k e = rw e

-- Taking the first page leaves the rest of the list.
pub taken-FreeList :
    (k : Kernel) (p : ℕ) (xs : List ℕ) → FreeList k (p ∷ xs) → FreeList (taken p k) xs
taken-FreeList k p xs f = record {
  chain =
      Chain-frame k.pages (taken p k).pages _ xs
        (λ q m. ap (λ (i : PageInfo). i.pp_link) (same q m)) f.chain.1;
  distinct = f.distinct.1;
  unused = All-map _ _ xs (λ q m r. ap (λ (i : PageInfo). i.pp_ref) (same q m) ∙ r) f.unused.1;
  in_range = f.in_range.1;
}
  where
    same : (q : ℕ) → has q xs ≡ true → (taken p k).pages q ≡ k.pages q
    same q m = update-has k.pages p q _ xs f.distinct.0 m

-- What page_alloc promises of the state `k'` that it leaves, when it takes `p`.
abbrev pub Allocated : ℕ → ℕ → Kernel → List ℕ → Option ℕ → Kernel → Type 0
Allocated flags p k xs r k' =
    (r ≡ some p)
    × FreeList k' xs
    × ((k'.pages p).pp_link ≡ none)
    × ((q : ℕ) → (k'.pages q).pp_ref ≡ (k.pages q).pp_ref)
    × ((q : ℕ)
        → k'.mem q ≡ (if bit_and flags alloc_zero == 0 then k.mem q else zero_page (kva p) k.mem q))

allocated :
    (flags p : ℕ) (k : Kernel) (xs : List ℕ)
    → FreeList k (p ∷ xs)
    → let k' = (if bit_and flags alloc_zero == 0 then taken p k else taken_zero p k) in
      Allocated flags p k xs (some p) k'
allocated flags p k xs f = elim (Bool-cases (bit_and flags alloc_zero == 0)) [
  | inl z ↦ rw z (refl, taken-FreeList k p xs f, ground arith, refs, λ q. refl)
  | inr z ↦ rw z (refl, zeroed, ground arith, refs, λ q. refl)
]
  where
    refs : (q : ℕ) → ((taken p k).pages q).pp_ref ≡ (k.pages q).pp_ref
    refs q = ground arith

    zeroed : FreeList (taken_zero p k) xs
    zeroed =
        let t = taken-FreeList k p xs f in
        record { chain = t.chain; distinct = t.distinct; unused = t.unused; in_range = t.in_range }

-- From a free list that begins at page p, page_alloc returns p and leaves the rest as the free
-- list, with NULL in the link of p, every reference count as it was, and memory as it was but for
-- the words of the page p under ALLOC_ZERO, which are 0.
pub page_alloc-cons :
    (flags p : ℕ) (k : Kernel) (xs : List ℕ)
    → Fits k
    → FreeList k (p ∷ xs)
    → Returns (Allocated flags p k xs) (page_alloc flags k)
page_alloc-cons flags p k xs fits f =
    rw (page_alloc-flags k p fits f.in_range.0 f.chain.0 flags) (allocated flags p k xs f)
