-- ===== src/Pmap/Walk/Grow.antt =====
-- pgdir_walk on a directory whose tables come from the free list, and a write to an entry that it finds.
use lab3a.Base.{
  ℕ, ◌+◌, ◌*◌, ◌<◌, ◌≡◌, ◌≢◌, inl, inr, refl, sym, ap, Option, some, true, false, Bool-cases, List,
  ◌∷◌, arith, All, All-map, ◌∙◌, update, update_ne, ◌==◌, ==_iff, has,
}
use lab3a.Machine.{Kernel}
use lab3a.Machine.Convert.{Fits, kva, page2pa}
use lab3a.Machine.Runs.{Returns}
use lab3a.Mmu.{pdx, ptx, present, pgnum}
use lab3a.Mmu.Entry.{table_entry, present-entry}
use lab3a.Pmap.Page.Alloc.{taken, taken_zero, taken-FreeList}
use lab3a.Pmap.Page.FreeList.{FreeList, ne-of-has, set_page-FreeList}
use lab3a.Pmap.Walk.{pde_ptr, pgdir_walk}
use lab3a.Pmap.Walk.Create.{Fresh, leaf-grown, grown-Directory, grown_ne, grown_self}
use lab3a.Pmap.Walk.Remove.{table-InMemory, word_outside}
use lab3a.Pmap.Walk.Runs.{pde_of, installed, installed-number, walk-create, walk-present}
use lab3a.Pmap.Walk.Translate.{Directory, Directory-frame, leaf, pte_at, pte_at-word, word}

-- A directory of the right shape, none of whose pages is on the free list `xs`.
pub record Ready (k : Kernel) (d : ℕ) (xs : List ℕ) : Type 0 where
  pub fits : Fits k
  pub dir : Directory k.npages k.mem d
  pub free : FreeList k xs
  pub fresh : All (Fresh k.mem d) xs

-- The tables that are there stay.
abbrev pub Grows : (ℕ → ℕ) → ℕ → (ℕ → ℕ) → Type 0
Grows mem d mem' =
    (i : ℕ) → i < 1024 → present (mem (word d i)) ≡ true → present (mem' (word d i)) ≡ true

-- What pgdir_walk with create leaves: a table for the address, and the translations as they were.
abbrev pub Walked : Kernel → ℕ → ℕ → List ℕ → Option ℕ → Kernel → Type 0
Walked k d va ys o k' =
    (o ≡ some (pte_at (pde_of k' (kva d) va) va))
    × (present (pde_of k' (kva d) va) ≡ true)
    × Ready k' d ys
    × ((va' : ℕ) → pdx va' ≢ 957 → leaf k'.mem (kva d) va' ≡ leaf k.mem (kva d) va')
    × Grows k.mem d k'.mem
    × (k'.npages ≡ k.npages)

pub Walked-present :
    (k : Kernel) (d va : ℕ) (xs : List ℕ)
    → Ready k d xs
    → pdx va ≢ 957
    → present (pde_of k (kva d) va) ≡ true
    → Returns (Walked k d va xs) (pgdir_walk (kva d) va true k)
Walked-present k d va xs ready user table =
    rw
      (walk-present k (kva d) va ready.fits true table
        (table-InMemory k d va ready.fits ready.dir user table))
      (refl, table, ready, (λ va' _. refl), (λ i h e. e), refl)

module _ (k : Kernel) (d va p : ℕ) (ys : List ℕ) (ready : Ready k d (p ∷ ys)) (user : pdx va ≢ 957)
    (absent : present (pde_of k (kva d) va) ≡ false) where
  abbrev entry_of : ℕ
  entry_of = table_entry (page2pa p)

  abbrev grown_state : Kernel
  grown_state = installed p (pde_ptr (kva d) va) (taken_zero p k)

  number : pgnum entry_of ≡ p
  number = installed-number p (let h = ready.free.in_range.0 in let f = ready.fits in omega arith)

  grown_at : (i : ℕ) → i < 1024 → i ≢ pdx va → grown_state.mem (word d i) ≡ k.mem (word d i)
  grown_at =
      grown_ne k.npages k.mem d p va entry_of ready.dir ready.fresh.0 user absent
        ready.free.in_range.0 number (present-entry _)

  grown_here : grown_state.mem (word d (pdx va)) ≡ entry_of
  grown_here =
      grown_self k.npages k.mem d p va entry_of ready.dir ready.fresh.0 user absent
        ready.free.in_range.0 number (present-entry _)

  grown_free : FreeList grown_state ys
  grown_free =
      let t = taken-FreeList k p ys ready.free in
      let f = set_page-FreeList (taken p k) p _ ys t ready.free.distinct.0 in
      record { chain = f.chain; distinct = f.distinct; unused = f.unused; in_range = f.in_range }

  grown_fresh : (q : ℕ) → has q ys ≡ true → Fresh k.mem d q → Fresh grown_state.mem d q
  grown_fresh q m f = record {
    not_directory = f.not_directory;
    not_table = λ i o h. elim (Bool-cases (i == pdx va)) [
      | inl e ↦
          rw ((==_iff i (pdx va)).0 e, grown_here, number)
            (λ same. ne-of-has p q ys ready.free.distinct.0 m (sym same))
      | inr e ↦ let same = grown_at i o.0 (ground arith) in rw same (f.not_table i o (rw same at h))
    ];
  }

  grown-Grows : Grows k.mem d grown_state.mem
  grown-Grows i h e = elim (Bool-cases (i == pdx va)) [
    | inl same ↦ rw ((==_iff i (pdx va)).0 same, grown_here) (present-entry _)
    | inr other ↦ rw (grown_at i h (ground arith)) e
  ]

  grown-Ready : Ready grown_state d ys
  grown-Ready = record {
    fits = ready.fits;
    dir =
        grown-Directory k.npages k.mem d p va entry_of ready.dir ready.fresh.0 user absent
          ready.free.in_range.0 number (present-entry _);
    free = grown_free;
    fresh = All-map _ _ ys grown_fresh ready.fresh.1;
  }

  grown_ptr : kva p + 4 * ptx va ≡ pte_at (pde_of grown_state (kva d) va) va
  grown_ptr = sym (
      ap (λ (e : ℕ). pte_at e va) grown_here
      ∙ pte_at-word entry_of va
      ∙ ap (λ (t : ℕ). word t (ptx va)) number)

  pub Walked-create : Returns (Walked k d va ys) (pgdir_walk (kva d) va true k)
  Walked-create =
      rw (walk-create k (kva d) va ready.fits p absent ready.free.chain.0 ready.free.in_range.0) (
        ap (λ (a : ℕ). some a) grown_ptr,
        ap present grown_here ∙ present-entry _,
        grown-Ready,
        leaf-grown k.npages k.mem d p va entry_of ready.dir ready.fresh.0 user absent
            ready.free.in_range.0 number (present-entry _),
        grown-Grows,
        refl,
      )

-- A write to the entry of `va`.
abbrev pub written : Kernel → ℕ → ℕ → ℕ → Kernel
written k d va v = record k { mem = update k.mem (pte_at (pde_of k (kva d) va) va) v }

-- It leaves the directory ready.
module _ (k : Kernel) (d va v : ℕ) (xs : List ℕ) (ready : Ready k d xs) (user : pdx va ≢ 957)
    (table : present (pde_of k (kva d) va) ≡ true) where
  pub written_at : (i : ℕ) → i < 1024 → (written k d va v).mem (word d i) ≡ k.mem (word d i)
  written_at i h =
      update_ne k.mem (pte_at (pde_of k (kva d) va) va) (word d i) v
        (word_outside k.npages k.mem d va v ready.dir user table i h)

  pub written-Ready : Ready (written k d va v) d xs
  written-Ready = record {
    fits = ready.fits;
    dir =
        Directory-frame k.npages k.mem (written k d va v).mem d (λ i h. ap present (written_at i h))
          (λ i h. ap pgnum (written_at i h)) ready.dir;
    free = record {
      chain = ready.free.chain;
      distinct = ready.free.distinct;
      unused = ready.free.unused;
      in_range = ready.free.in_range;
    };
    fresh =
        All-map _ _ xs
          (λ q m f. record {
            not_directory = f.not_directory;
            not_table =
                λ i o h. let same = written_at i o.0 in rw same (f.not_table i o (rw same at h));
          })
          ready.fresh;
  }
