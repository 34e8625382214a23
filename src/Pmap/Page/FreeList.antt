-- ===== src/Pmap/Page/FreeList.antt =====
-- The free list as the list of its pages.
use lab3a.Base.{
  ℕ, ◌<◌, ◌≡◌, ◌≢◌, sym, subst, Option, none, some, true, false, List, [], ◌∷◌, arith, All, has,
  Distinct, update, update-has, All-map, ap, ◌∙◌,
}
use lab3a.Machine.{Kernel, PageInfo, set_page}

-- From `head` the links lead through the pages in order and end in NULL.
abbrev pub Chain : (ℕ → PageInfo) → Option ℕ → List ℕ → Type 0
Chain pages head [] = head ≡ none
Chain pages head (p ∷ xs) = (head ≡ some p) × Chain pages (pages p).pp_link xs

-- The free list holds the pages `xs`: each once, each of physical memory, none referenced.
pub record FreeList (k : Kernel) (xs : List ℕ) : Type 0 where
  pub chain : Chain k.pages k.page_free_list xs
  pub distinct : Distinct xs
  pub unused : All (λ p. (k.pages p).pp_ref ≡ 0) xs
  pub in_range : All (λ p. p < k.npages) xs

-- A chain survives a change that keeps the links of its own pages.
pub Chain-frame :
    (pages pages' : ℕ → PageInfo) (head : Option ℕ) (xs : List ℕ)
    → ((p : ℕ) → has p xs ≡ true → (pages' p).pp_link ≡ (pages p).pp_link)
    → Chain pages head xs
    → Chain pages' head xs
Chain-frame pages pages' head [] same c = c
Chain-frame pages pages' head (p ∷ xs) same c = (
  c.0,
  subst (λ l. Chain pages' l xs) (sym (same p (ground arith)))
      (Chain-frame pages pages' (pages p).pp_link xs (λ q m. same q (ground arith)) c.1),
)

pub ne-of-has : (p q : ℕ) (xs : List ℕ) → has p xs ≡ false → has q xs ≡ true → q ≢ p
ne-of-has p q xs out m e = cc

-- A page outside the list changes.
pub set_page-FreeList :
    (k : Kernel) (p : ℕ) (i : PageInfo) (xs : List ℕ)
    → FreeList k xs
    → has p xs ≡ false
    → FreeList (set_page p i k) xs
set_page-FreeList k p i xs f out = record {
  chain =
      Chain-frame k.pages (update k.pages p i) _ xs
        (λ q m. ap (λ (i : PageInfo). i.pp_link) (same q m)) f.chain;
  distinct = f.distinct;
  unused = All-map _ _ xs (λ q m r. ap (λ (i : PageInfo). i.pp_ref) (same q m) ∙ r) f.unused;
  in_range = f.in_range;
}
  where
    same : (q : ℕ) → has q xs ≡ true → update k.pages p i q ≡ k.pages q
    same q m = update-has k.pages p q i xs out m
