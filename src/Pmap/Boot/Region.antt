-- ===== src/Pmap/Boot/Region.antt =====
-- boot_map_region maps every page of its region, as long as the free list has the tables for it.
use lab3a.Base.{
  ℕ, zero, suc, ◌+◌, ◌*◌, ◌^◌, ◌<◌, ◌≤◌, ◌≡◌, ◌≢◌, inl, inr, refl, ap, some, true, false, Bool, not,
  Bool-cases, List, arith, ◌==◌, ==_iff, if◌then◌else◌, bit_or,
}
use lab3a.Machine.{Kernel}
use lab3a.Machine.Convert.{kva}
use lab3a.Mmu.{u32, pgsize, pdx, ptx, present, pte_p}
use lab3a.Pmap.Walk.Grow.{Ready, Grows}
use lab3a.Pmap.Walk.Translate.{Apart, leaf, word, pdx-lt}

-- Whether the page at `va` is the last of its slot, with n pages behind it.
abbrev last_of_slot : ℕ → ℕ → Bool
last_of_slot va zero = true
last_of_slot va (suc n) = not (pdx va == pdx (va + pgsize))

abbrev count : Bool → Bool → ℕ
count there last = if there then 0 else if last then 1 else 0

-- How many tables are missing for the n pages from `va` on.
unfoldable pub missing : (ℕ → ℕ) → ℕ → ℕ → ℕ → ℕ
missing mem d va zero = 0
missing mem d va (suc n) =
    count (present (mem (word d (pdx va)))) (last_of_slot va n) + missing mem d (va + pgsize) n

count_mono :
    (b b' last : Bool) (x y : ℕ)
    → (b ≡ true → b' ≡ true)
    → y ≤ x
    → count b' last + y ≤ count b last + x
count_mono true b' last x y f h = let e = f refl in rw e (omega arith)
count_mono false true last x y f h = omega arith
count_mono false false last x y f h = omega arith

pub missing_mono :
    (mem mem' : ℕ → ℕ) (d va n : ℕ) → Grows mem d mem' → missing mem' d va n ≤ missing mem d va n
unfolding missing
missing_mono mem mem' d va zero g = omega arith
missing_mono mem mem' d va (suc n) g =
    count_mono (present (mem (word d (pdx va)))) (present (mem' (word d (pdx va))))
      (last_of_slot va n) (missing mem d (va + pgsize) n) (missing mem' d (va + pgsize) n)
      (g (pdx va) (pdx-lt va)) (missing_mono mem mem' d (va + pgsize) n g)

-- The count of the first page.
pub missing-first :
    (mem : ℕ → ℕ) (d va n c : ℕ)
    → count (present (mem (word d (pdx va)))) (last_of_slot va n) ≡ c
    → missing mem d va (suc n) ≡ c + missing mem d (va + pgsize) n
unfolding missing
missing-first mem d va n c e = ap (λ (x : ℕ). x + missing mem d (va + pgsize) n) e

missing-none : (mem : ℕ → ℕ) (d va : ℕ) → missing mem d va 0 ≡ 0
unfolding missing
missing-none mem d va = refl

-- A table that comes for the first page is one less that is missing.
pub missing_less :
    (mem mem' : ℕ → ℕ) (d va n : ℕ)
    → Grows mem d mem'
    → present (mem (word d (pdx va))) ≡ false
    → present (mem' (word d (pdx va))) ≡ true
    → suc (missing mem' d (va + pgsize) n) ≤ missing mem d va (suc n)
missing_less mem mem' d va zero g absent there =
    omega (arith, missing-first mem d va 0 1 (rw absent refl), missing-none mem' d (va + pgsize))
missing_less mem mem' d va (suc n) g absent there =
    elim (Bool-cases (pdx va == pdx (va + pgsize))) [
      | inl e ↦
          let same : pdx va ≡ pdx (va + pgsize) = (==_iff _ _).0 e in
          let here : present (mem (word d (pdx (va + pgsize)))) ≡ false = rw (← same) absent in
          let here' : present (mem' (word d (pdx (va + pgsize)))) ≡ true = rw (← same) there in
          omega (
            arith,
            missing_less mem mem' d (va + pgsize) n g here here',
            missing-first mem d va (suc n) 0 (rw (absent, e) refl),
            missing-first mem' d (va + pgsize) n 0 (rw here' refl),
          )
      | inr e ↦ omega (
        arith,
        missing_mono mem mem' d (va + pgsize) (suc n) g,
        missing-first mem d va (suc n) 1 (rw (absent, e) refl),
      )
    ]

pub missing_some :
    (mem : ℕ → ℕ) (d va n : ℕ)
    → present (mem (word d (pdx va))) ≡ false
    → 0 < missing mem d va (suc n)
missing_some mem d va zero absent = omega (arith, missing-first mem d va 0 1 (rw absent refl))
missing_some mem d va (suc n) absent = elim (Bool-cases (pdx va == pdx (va + pgsize))) [
  | inl e ↦
      let same : pdx va ≡ pdx (va + pgsize) = (==_iff _ _).0 e in
      let here : present (mem (word d (pdx (va + pgsize)))) ≡ false = rw (← same) absent in
      omega (
        arith,
        missing_some mem d (va + pgsize) n here,
        missing-first mem d va (suc n) 0 (rw (absent, e) refl),
      )
  | inr e ↦ omega (arith, missing-first mem d va (suc n) 1 (rw (absent, e) refl))
]

-- The entry that maps a page.
abbrev pub entry_for : ℕ → ℕ → ℕ
entry_for pa perm = bit_or (bit_or (u32 pa) perm) pte_p

-- The n pages from `va` on are mapped to those from `pa` on, every other address outside the slot
-- UVPT translates as before, and the directory is ready for more.
abbrev pub RegionMapped : Kernel → ℕ → ℕ → ℕ → ℕ → ℕ → Kernel → Type 0
RegionMapped k d va pa perm n k' =
    ((j : ℕ)
      → j < n
      → leaf k'.mem (kva d) (va + pgsize * j) ≡ some (entry_for (pa + pgsize * j) perm))
    × ((va' : ℕ)
        → pdx va' ≢ 957
        → ((j : ℕ) → j < n → Apart (va + pgsize * j) va')
        → leaf k'.mem (kva d) va' ≡ leaf k.mem (kva d) va')
    × (k'.npages ≡ k.npages)
    × ((ys : List ℕ) × Ready k' d ys)

pub pages-Apart : (va j : ℕ) → va + pgsize * suc j < 2 ^ 32 → Apart (va + pgsize + pgsize * j) va
unfolding pdx ptx
pages-Apart va j h = elim (Bool-cases (pdx (va + pgsize + pgsize * j) == pdx va)) [
  | inl e ↦ inr (λ f. let g = (==_iff _ _).0 e in omega arith)
  | inr e ↦ inl (λ f. let g = (==_iff _ _).1 f in ground arith)
]
