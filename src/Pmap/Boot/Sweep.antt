-- ===== src/Pmap/Boot/Sweep.antt =====
-- page_init of kern/pmap.c: which pages are free once it has run.
use lab3a.Machine.Runs.{Returns}
use lab3a.Pmap.Page.FreeList.{FreeList, Chain-frame, Chain, set_page-FreeList}
use lab3a.Base.{
  sym, ==_iff, refl, ℕ, zero, suc, ◌+◌, ◌-◌, ◌/◌, ◌^◌, ◌≡◌, ◌≢◌, some, none, Bool, List, [], ◌∷◌,
  arith, ◌==◌, ltb, leb, ◌&&◌, ◌||◌, if◌then◌else◌, update, ◌<◌, ◌≤◌, has, true, false, Bool-cases,
  update-has, inl, subst, ap, inr, ==_ne, All-map, ◌∙◌,
}
use lab3a.Mmu.{u32, kernbase, pgsize}
use lab3a.Machine.{Kernel, PageInfo, done, set_page}
use lab3a.Pmap.Boot.{page_init_at, boot_alloc, page_init, page_init_from}

-- The IO hole and the kernel's own pages, up to the page `first`.
abbrev pub reserved : ℕ → ℕ → Bool
reserved first i = (leb 160 i && ltb i 256) || (leb 256 i && ltb i first)

-- The pages below `n` that are neither page 0 nor reserved, the highest first.
pub free_below : ℕ → ℕ → List ℕ
free_below first zero = []
free_below first (suc i) =
    let rest = free_below first i in if (i == 0) || reserved first i then rest else i ∷ rest

-- The page that boot_alloc(0) gives, as a number.
abbrev pub first_page : Kernel → ℕ
first_page k = u32 (k.nextfree + 2 ^ 32 - kernbase) / pgsize

abbrev used_page : PageInfo
used_page = record { pp_link = none; pp_ref = 1 }

-- The state that a round of the loop leaves.
abbrev placed : ℕ → ℕ → Kernel → Kernel
placed first i k = if reserved first i then set_page i used_page k else record k {
  pages = update k.pages i (record { pp_link = k.page_free_list; pp_ref = 0 });
  page_free_list = some i;
}

page_init_at-ok :
    (end i : ℕ) (k : Kernel)
    → k.nextfree ≢ 0
    → page_init_at end i k ≡ done tt (placed (first_page k) i k)
unfolding page_init_at boot_alloc
page_init_at-ok end i k h = ground arith

-- What holds after the loop has passed the pages below `i`, from the state `k`.
pub record Swept (k : Kernel) (first i : ℕ) (k' : Kernel) : Type 0 where
  pub list : FreeList k' (free_below first i)
  pub refs : (p : ℕ) → p < i → (k'.pages p).pp_ref ≡ (if (p == 0) || reserved first p then 1 else 0)
  pub links : (p : ℕ) → p < i → (p == 0) || reserved first p ≡ true → (k'.pages p).pp_link ≡ none
  pub mem : k'.mem ≡ k.mem
  pub npages : k'.npages ≡ k.npages
  pub nextfree : k'.nextfree ≡ k.nextfree

has-free_below : (first p i : ℕ) → i ≤ p → has p (free_below first i) ≡ false
unfolding free_below
has-free_below first p zero h = refl
has-free_below first p (suc i) h =
    let rest = has-free_below first p i (omega arith) in
    elim (Bool-cases ((i == 0) || reserved first i)) [
      | inl e ↦ rw (e, rest)
      | inr e ↦ rw (e, ==_ne p i (omega arith), rest)
    ]

-- A list of free pages gains a page in front, or sees a page outside it change.
pushed-FreeList :
    (k : Kernel) (p : ℕ) (xs : List ℕ)
    → FreeList k xs
    → has p xs ≡ false
    → p < k.npages
    → FreeList
        (record k {
          pages = update k.pages p (record { pp_link = k.page_free_list; pp_ref = 0 });
          page_free_list = some p;
        })
        (p ∷ xs)
pushed-FreeList k p xs f out h = record {
  chain = (
    refl,
    subst (λ l. Chain pages l xs) link
        (Chain-frame k.pages pages _ xs (λ q m. ap (λ (i : PageInfo). i.pp_link) (same q m))
          f.chain),
  );
  distinct = (out, f.distinct);
  unused = (
    ground arith,
    All-map _ _ xs (λ q m r. ap (λ (i : PageInfo). i.pp_ref) (same q m) ∙ r) f.unused,
  );
  in_range = (h, f.in_range);
}
  where
    pages : ℕ → PageInfo
    pages = update k.pages p (record { pp_link = k.page_free_list; pp_ref = 0 })

    link : k.page_free_list ≡ (pages p).pp_link
    link = ground arith

    same : (q : ℕ) → has q xs ≡ true → pages q ≡ k.pages q
    same q m = update-has k.pages p q _ xs out m

-- One page more: it is the last, or it was there.
last_or_before :
    (P : ℕ → Type 0) (i : ℕ) → P i → ((p : ℕ) → p < i → P p) → (p : ℕ) → p < suc i → P p
last_or_before P i last before p h = elim (Bool-cases (p == i)) [
  | inl e ↦ subst P (sym ((==_iff p i).0 e)) last
  | inr e ↦ before p (ground arith)
]

free_below-reserved :
    (first i : ℕ)
    → reserved first (suc i) ≡ true
    → free_below first (suc (suc i)) ≡ free_below first (suc i)
unfolding free_below
free_below-reserved first i e = rw (e, ==_ne (suc i) 0 (omega arith))

free_below-free :
    (first i : ℕ)
    → reserved first (suc i) ≡ false
    → free_below first (suc (suc i)) ≡ suc i ∷ free_below first (suc i)
unfolding free_below
free_below-free first i e = rw (e, ==_ne (suc i) 0 (omega arith))

placed-Swept :
    (k : Kernel) (first i : ℕ) (k' : Kernel)
    → Swept k first (suc i) k'
    → suc i < k.npages
    → Swept k first (suc (suc i)) (placed first (suc i) k')
placed-Swept k first i k' s h = elim (Bool-cases (reserved first (suc i))) [
  | inl e ↦ rw e record {
    list = rw (free_below-reserved first i e) (set_page-FreeList k' (suc i) used_page _ s.list out);
    refs = last_or_before _ (suc i) (rw e (ground arith)) (λ p l. ground (arith, s.refs p l));
    links = last_or_before _ (suc i) (ground arith) (λ p l u. ground (arith, s.links p l u));
    mem = s.mem;
    npages = s.npages;
    nextfree = s.nextfree;
  }
  | inr e ↦ rw e record {
    list =
        rw (free_below-free first i e) (pushed-FreeList k' (suc i) _ s.list out (rw (s.npages) h));
    refs = last_or_before _ (suc i) (rw e (ground arith)) (λ p l. ground (arith, s.refs p l));
    links = last_or_before _ (suc i) (ground arith) (λ p l u. ground (arith, s.links p l u));
    mem = s.mem;
    npages = s.npages;
    nextfree = s.nextfree;
  }
]
  where
    out : has (suc i) (free_below first (suc i)) ≡ false
    out = has-free_below first (suc i) (suc i) (omega arith)

page_init_at_later :
    (end i : ℕ) (k k' : Kernel)
    → k.nextfree ≢ 0
    → k'.nextfree ≡ k.nextfree
    → page_init_at end i k' ≡ done tt (placed (first_page k) i k')
page_init_at_later end i k k' ne e =
    page_init_at-ok end i k' (rw e ne)
    ∙ ap (λ (n : ℕ). done tt (placed (u32 (n + 2 ^ 32 - kernbase) / pgsize) i k')) e

page_init_from-Swept :
    (end : ℕ) (k : Kernel) (rounds i : ℕ) (k' : Kernel)
    → k.nextfree ≢ 0
    → suc i + rounds ≤ k.npages
    → Swept k (first_page k) (suc i) k'
    → Returns
        (λ _ k''. Swept k (first_page k) (suc i + rounds) k'')
        (page_init_from end rounds (suc i) k')
unfolding page_init_from
page_init_from-Swept end k zero i k' ne h s = let e : suc i + 0 ≡ suc i = omega arith in rw e s
page_init_from-Swept end k (suc rounds) i k' ne h s =
    let e : suc i + suc rounds ≡ suc (suc i) + rounds = omega arith in
    let e' : suc i + 1 ≡ suc (suc i) = omega arith in
    rw (page_init_at_later end (suc i) k k' ne s.nextfree, e, e')
      (page_init_from-Swept end k rounds (suc i) _ ne (omega arith)
        (placed-Swept k (first_page k) i k' s (omega arith)))

-- With boot_alloc begun and no page on the free list, page_init makes the free list the pages from
-- 1 to npages - 1 that are neither in [160, 256), the IO hole, nor in [256, first), where first is
-- the page of the next free address of boot_alloc, the highest page first. Their count is 0, and every
-- other page of physical memory, page 0 included, has the count 1 and a NULL link. Memory, npages
-- and the next free address stay.
pub page_init-Swept :
    (end : ℕ) (k : Kernel)
    → k.nextfree ≢ 0
    → 1 ≤ k.npages
    → k.page_free_list ≡ none
    → Returns (λ _ k'. Swept k (first_page k) k.npages k') (page_init end k)
unfolding page_init free_below
page_init-Swept end k ne h e =
    let count : suc 0 + (k.npages - 1) ≡ k.npages = omega arith in
    rw (count) at (
      page_init_from-Swept end k (k.npages - 1) 0 (set_page 0 used_page k) ne (omega arith) record {
        list = record { chain = e; distinct = tt; unused = tt; in_range = tt };
        refs = λ p l. ground arith;
        links = λ p l u. ground arith;
        mem = refl;
        npages = refl;
        nextfree = refl;
      })
