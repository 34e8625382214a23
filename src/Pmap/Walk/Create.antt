-- ===== src/Pmap/Walk/Create.antt =====
-- pgdir_walk puts a cleared page into the directory as a new table: no translation changes.
use lab3a.Base.{
  ℕ, ◌<◌, ◌≡◌, ◌≢◌, inl, inr, sym, ap, none, true, false, Bool-cases, update, update_ne,
  update_self, arith, ◌==◌, ==_iff, ◌∙◌, ◌⊎◌,
}
use lab3a.Mmu.{pgnum, pdx, ptx, pte_addr, present}
use lab3a.Machine.Convert.{kva}
use lab3a.Pmap.Page.{zero_page}
use lab3a.Pmap.Walk.{pde_ptr}
use lab3a.Pmap.Walk.Translate.{
  pte_at, leaf, leaf_in, leaf_in_frame, word, word_ne, pte_at-word, Ordinary, Directory,
  Directory-frame, pdx-lt, ptx-lt,
}

-- The page `p` is not in use by the directory `d`.
pub record Fresh (mem : ℕ → ℕ) (d p : ℕ) : Type 0 where
  pub not_directory : p ≢ d
  pub not_table :
      (i : ℕ) → Ordinary i → present (mem (word d i)) ≡ true → pgnum (mem (word d i)) ≢ p

pub zero_page_ne :
    (mem : ℕ → ℕ) (p q i : ℕ) → i < 1024 → q ≢ p → zero_page (kva p) mem (word q i) ≡ mem (word q i)
zero_page_ne mem p q i h ne = ground arith

pub zero_page_self : (mem : ℕ → ℕ) (p i : ℕ) → i < 1024 → zero_page (kva p) mem (word p i) ≡ 0
zero_page_self mem p i h = ground arith

-- Clearing a page that the directory does not use.
module _ (npages : ℕ) (mem : ℕ → ℕ) (d p : ℕ) (dir : Directory npages mem d)
    (fresh : Fresh mem d p) where
  abbrev cleared : ℕ → ℕ
  cleared = zero_page (kva p) mem

  cleared_entry : (i : ℕ) → i < 1024 → cleared (word d i) ≡ mem (word d i)
  cleared_entry i h = zero_page_ne mem p d i h (λ e. fresh.not_directory (sym e))

  cleared-Directory : Directory npages cleared d
  cleared-Directory =
      Directory-frame npages mem cleared d (λ i h. ap present (cleared_entry i h))
        (λ i h. ap pgnum (cleared_entry i h)) dir

  leaf-cleared : (va : ℕ) → pdx va ≢ 957 → leaf cleared (kva d) va ≡ leaf mem (kva d) va
  leaf-cleared va user =
      leaf_in_frame mem cleared pde (cleared (pde_ptr (kva d) va)) va (ap present same)
        (ap pte_addr same)
        (λ h. rw (pte_at-word pde va) (
          zero_page_ne mem p (pgnum pde) (ptx va) (ptx-lt va)
            (fresh.not_table (pdx va) (pdx-lt va, user) h)))
    where
      pde : ℕ
      pde = mem (pde_ptr (kva d) va)

      same : cleared (pde_ptr (kva d) va) ≡ pde
      same = cleared_entry (pdx va) (pdx-lt va)

-- A table of zeros at an empty slot.
module _ (npages : ℕ) (mem : ℕ → ℕ) (d p va entry : ℕ) (dir : Directory npages mem d)
    (fresh : Fresh mem d p) (user : pdx va ≢ 957)
    (empty : present (mem (pde_ptr (kva d) va)) ≡ false) (exists : p < npages)
    (number : pgnum entry ≡ p) (set : present entry ≡ true) where
  abbrev grown : ℕ → ℕ
  grown = update (zero_page (kva p) mem) (pde_ptr (kva d) va) entry

  pub grown_ne : (i : ℕ) → i < 1024 → i ≢ pdx va → grown (word d i) ≡ mem (word d i)
  grown_ne i h ne =
      update_ne (zero_page (kva p) mem) (pde_ptr (kva d) va) (word d i) entry
        (word_ne d d i (pdx va) h (pdx-lt va) (inr ne))
      ∙ cleared_entry npages mem d p dir fresh i h

  pub grown_self : grown (word d (pdx va)) ≡ entry
  grown_self = update_self (zero_page (kva p) mem) (word d (pdx va)) entry

  -- A slot that is present afterwards is the new one, or was present before.
  Slot : ℕ → Type 0
  Slot i = (i ≡ pdx va) ⊎ ((i ≢ pdx va) × (grown (word d i) ≡ mem (word d i)))

  Slot-cases : (i : ℕ) → i < 1024 → Slot i
  unfolding Slot
  Slot-cases i h = elim (Bool-cases (i == pdx va)) [
    | inl e ↦ inl ((==_iff i (pdx va)).0 e)
    | inr e ↦ let ne : i ≢ pdx va = ground arith in inr (ne, grown_ne i h ne)
  ]

  pub grown-Directory : Directory npages grown d
  unfolding Slot
  grown-Directory = record {
    in_range = dir.in_range;
    tables = λ i o h. elim (Slot-cases i o.0) [
      | inl e ↦ rw (e, grown_self, number) (exists, fresh.not_directory)
      | inr (ne, same) ↦ rw same (dir.tables i o (rw same at h))
    ];
    apart = λ i j o o' ne h h'. elim (Slot-cases i o.0) [
      | inl e ↦ elim (Slot-cases j o'.0) [
        | inl e' ↦ absurd (ne (e ∙ sym e'))
        | inr (_, same) ↦
            rw (e, grown_self, number, same) (λ q. fresh.not_table j o' (rw same at h') (sym q))
      ]
      | inr (_, same) ↦ elim (Slot-cases j o'.0) [
        | inl e' ↦ rw (e', grown_self, number, same) (fresh.not_table i o (rw same at h))
        | inr (_, same') ↦ rw (same, same') (dir.apart i j o o' ne (rw same at h) (rw same' at h'))
      ]
    ];
  }

  -- The new table translates nothing.
  new_table : (va' : ℕ) → grown (pte_at entry va') ≡ 0
  new_table va' =
      rw (pte_at-word entry va', number)
        (update_ne (zero_page (kva p) mem) (pde_ptr (kva d) va) (word p (ptx va')) entry
            (word_ne p d (ptx va') (pdx va) (ptx-lt va') (pdx-lt va) (inl fresh.not_directory))
          ∙ zero_page_self mem p (ptx va') (ptx-lt va'))

  old_table :
      (va' pde : ℕ) → pgnum pde ≢ p → pgnum pde ≢ d → grown (pte_at pde va') ≡ mem (pte_at pde va')
  old_table va' pde np nd = rw (pte_at-word pde va') (
      update_ne (zero_page (kva p) mem) (pde_ptr (kva d) va) (word (pgnum pde) (ptx va')) entry
        (word_ne (pgnum pde) d (ptx va') (pdx va) (ptx-lt va') (pdx-lt va) (inl nd))
      ∙ zero_page_ne mem p (pgnum pde) (ptx va') (ptx-lt va') np)

  leaf-new : (va' : ℕ) → pdx va' ≡ pdx va → leaf grown (kva d) va' ≡ leaf mem (kva d) va'
  unfolding present
  leaf-new va' e = rw (e, empty) (leaf_in-new (grown (word d (pdx va))) grown_self)
    where
      leaf_in-new : (pde : ℕ) → pde ≡ entry → leaf_in grown pde va' ≡ none
      leaf_in-new pde q = rw (q, set, new_table va')

  pub leaf-grown : (va' : ℕ) → pdx va' ≢ 957 → leaf grown (kva d) va' ≡ leaf mem (kva d) va'
  unfolding Slot
  leaf-grown va' user' = elim (Slot-cases (pdx va') (pdx-lt va')) [
    | inl e ↦ leaf-new va' e
    | inr (_, same) ↦
        leaf_in_frame mem grown (mem (pde_ptr (kva d) va')) (grown (pde_ptr (kva d) va')) va'
          (ap present same) (ap pte_addr same)
          (λ h.
            old_table va' (mem (pde_ptr (kva d) va'))
              (fresh.not_table (pdx va') (pdx-lt va', user') h)
              (dir.tables (pdx va') (pdx-lt va', user') h).1)
  ]
