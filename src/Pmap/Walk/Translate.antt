-- ===== src/Pmap/Walk/Translate.antt =====
-- What the two levels mean: the entry that the hardware finds for an address, and the shape of a
-- page directory that keeps its tables apart.
use lab3a.Base.{
  refl, ℕ, ◌+◌, ◌*◌, ◌<◌, ◌≡◌, ◌≢◌, ◌⊎◌, inl, inr, Option, none, some, true, arith, if◌then◌else◌,
  Bool-cases,
}
use lab3a.Mmu.{kernbase, pgnum, pdx, ptx, pte_addr, present, uvpt}
use lab3a.Machine.Convert.{kva}
use lab3a.Pmap.Walk.{pde_ptr}

-- Where the entry for `va` stands in the table that `pde` names.
abbrev pub pte_at : ℕ → ℕ → ℕ
pte_at pde va = kernbase + pte_addr pde + 4 * ptx va

abbrev pub if_present : ℕ → Option ℕ
if_present pte = if present pte then some pte else none

abbrev pub leaf_in : (ℕ → ℕ) → ℕ → ℕ → Option ℕ
leaf_in mem pde va = if present pde then if_present (mem (pte_at pde va)) else none

-- The page table entry that translates `va` under the directory at `pgdir`, if there is one.
abbrev pub leaf : (ℕ → ℕ) → ℕ → ℕ → Option ℕ
leaf mem pgdir va = leaf_in mem (mem (pde_ptr pgdir va)) va

-- The two addresses lie in different pages.
abbrev pub Apart : ℕ → ℕ → Type 0
Apart va va' = (pdx va ≢ pdx va') ⊎ (ptx va ≢ ptx va')

-- Word i of the page p.
abbrev pub word : ℕ → ℕ → ℕ
word p i = kva p + 4 * i

-- The slot that maps the directory onto itself.
abbrev pub Ordinary : ℕ → Type 0
Ordinary i = (i < 1024) × (i ≢ 957)

pub uvpt_slot : pdx uvpt ≡ 957
unfolding pdx
uvpt_slot = refl

-- The page `d` is a directory whose tables, the slot UVPT aside, are pages of physical memory,
-- different from `d` and from one another.
pub record Directory (npages : ℕ) (mem : ℕ → ℕ) (d : ℕ) : Type 0 where
  pub in_range : d < npages
  pub tables :
      (i : ℕ)
      → Ordinary i
      → present (mem (word d i)) ≡ true
      → (pgnum (mem (word d i)) < npages) × (pgnum (mem (word d i)) ≢ d)
  pub apart :
      (i j : ℕ)
      → Ordinary i
      → Ordinary j
      → i ≢ j
      → present (mem (word d i)) ≡ true
      → present (mem (word d j)) ≡ true
      → pgnum (mem (word d i)) ≢ pgnum (mem (word d j))

pub pdx-lt : (va : ℕ) → pdx va < 1024
unfolding pdx
pdx-lt va = omega arith

pub ptx-lt : (va : ℕ) → ptx va < 1024
unfolding ptx
ptx-lt va = omega arith

pub pte_at-word : (pde va : ℕ) → pte_at pde va ≡ word (pgnum pde) (ptx va)
unfolding pte_addr pgnum
pte_at-word pde va = omega arith

pub word_ne : (p q i j : ℕ) → i < 1024 → j < 1024 → (p ≢ q) ⊎ (i ≢ j) → word p i ≢ word q j
word_ne p q i j hi hj h = omega arith

-- The translation looks at the presence and the frame of the directory entry, and at one word.
pub leaf_in_frame :
    (mem mem' : ℕ → ℕ) (pde pde' va : ℕ)
    → present pde' ≡ present pde
    → pte_addr pde' ≡ pte_addr pde
    → (present pde ≡ true → mem' (pte_at pde va) ≡ mem (pte_at pde va))
    → leaf_in mem' pde' va ≡ leaf_in mem pde va
leaf_in_frame mem mem' pde pde' va same frame word = elim (Bool-cases (present pde)) [
  | inl h ↦ rw (same, h, frame, word h)
  | inr h ↦ rw (same, h)
]

-- The shape survives a change that keeps presence and frame of the directory's entries.
pub Directory-frame :
    (npages : ℕ) (mem mem' : ℕ → ℕ) (d : ℕ)
    → ((i : ℕ) → i < 1024 → present (mem' (word d i)) ≡ present (mem (word d i)))
    → ((i : ℕ) → i < 1024 → pgnum (mem' (word d i)) ≡ pgnum (mem (word d i)))
    → Directory npages mem d
    → Directory npages mem' d
Directory-frame npages mem mem' d same number dir = record {
  in_range = dir.in_range;
  tables = λ i o h. rw (number i o.0) (dir.tables i o (rw (← same i o.0) h));
  apart = λ i j o o' ne h h'.
      rw (number i o.0, number j o'.0)
        (dir.apart i j o o' ne (rw (← same i o.0) h) (rw (← same j o'.0) h'));
}
