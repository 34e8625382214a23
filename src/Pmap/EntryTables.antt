-- ===== src/Pmap/EntryTables.antt =====
-- The page directory and the page table of kern/entrypgdir.c, on which the kernel starts.
use lab3a.Base.{
  ℕ, ◌+◌, ◌*◌, ◌/◌, ◌%◌, ◌^◌, ◌<◌, ◌≡◌, refl, ap, ◌∙◌, bit_or, some, none, true, ◌||◌, ◌&&◌, ltb,
  leb, ◌==◌, if◌then◌else◌, Bool-cases, inl, inr, arith, Bool,
}
use lab3a.Mmu.{pte_p, pte_w, kernbase, pdx, ptx, pgoff, pgnum, pte_addr, present}
use lab3a.Mmu.Entry.{present-entry, present-or, pte_addr-or, pte_addr_page}
use lab3a.Machine.Convert.{kva}
use lab3a.Pmap.Walk.Translate.{leaf, leaf_in, word, pte_at-word, pdx-lt, ptx-lt, pte_at}

-- entry_pgtable[i]: the table is written out in the source, entry by entry
pub entry_pgtable : ℕ → ℕ
entry_pgtable i = bit_or (bit_or (i * 0x1000) pte_p) pte_w

-- entry_pgdir[i], for the physical address `table` of entry_pgtable
pub entry_pgdir : ℕ → ℕ → ℕ
entry_pgdir table i =
    if i == 0 then table + pte_p else if i == kernbase / 2 ^ 22 then table + pte_p + pte_w else 0

-- The first 4MB, and the first 4MB from KERNBASE on.
abbrev pub early : ℕ → Bool
early va = ltb va (2 ^ 22) || (leb kernbase va && ltb va (kernbase + 2 ^ 22))

-- Memory holds the two, the directory in the page d and the table in the page t.
pub record Loaded (mem : ℕ → ℕ) (d t : ℕ) : Type 0 where
  pub directory : (i : ℕ) → i < 1024 → mem (word d i) ≡ entry_pgdir (t * 4096) i
  pub table : (i : ℕ) → i < 1024 → mem (word t i) ≡ entry_pgtable i

early_slot : (va : ℕ) → va < 2 ^ 32 → early va ≡ (pdx va == 0 || pdx va == 960)
unfolding pdx
early_slot va h = ground arith

present-entry_pgtable : (i : ℕ) → present (entry_pgtable i) ≡ true
unfolding entry_pgtable
present-entry_pgtable i = present-or _ pte_w (present-entry (i * 0x1000))

pte_addr-entry_pgtable : (i : ℕ) → pte_addr (entry_pgtable i) ≡ i * 4096
unfolding entry_pgtable
pte_addr-entry_pgtable i =
    pte_addr-or (bit_or (i * 0x1000) pte_p) pte_w (omega arith)
    ∙ pte_addr-or (i * 0x1000) pte_p (omega arith)
    ∙ page
  where
    page : pte_addr (i * 0x1000) ≡ i * 4096
    page = pte_addr_page i

module _ (mem : ℕ → ℕ) (d t va : ℕ) (loaded : Loaded mem d t) where
  early_leaf :
      (pde : ℕ)
      → present pde ≡ true
      → pgnum pde ≡ t
      → leaf_in mem pde va ≡ some (entry_pgtable (ptx va))
  early_leaf pde p n =
      let entry : mem (pte_at pde va) ≡ entry_pgtable (ptx va) =
        ap mem (pte_at-word pde va ∙ ap (λ (q : ℕ). word q (ptx va)) n)
        ∙ loaded.table (ptx va) (ptx-lt va) in
      rw (p, entry, present-entry_pgtable (ptx va)) refl

  leaf-entry_pgdir :
      leaf mem (kva d) va
      ≡ (if pdx va == 0 || pdx va == 960 then some (entry_pgtable (ptx va)) else none)
  unfolding entry_pgdir present pgnum
  leaf-entry_pgdir =
      ap (λ (pde : ℕ). leaf_in mem pde va) (loaded.directory (pdx va) (pdx-lt va))
      ∙ elim (Bool-cases (pdx va == 0)) [
        | inl e ↦ rw e (early_leaf (t * 4096 + 1) (ground arith) (omega arith))
        | inr e ↦ elim (Bool-cases (pdx va == 960)) [
          | inl e' ↦ rw (e, e') (early_leaf (t * 4096 + 1 + 2) (ground arith) (omega arith))
          | inr e' ↦ rw (e, e') refl
        ]
      ]

-- With the two tables loaded, a 32-bit address is translated exactly when it lies in the first 4MB or in
-- the first 4MB from KERNBASE on, and the entry that is found for it leads to the byte of
-- physical memory at its offset in that region.
pub leaf-early :
    (mem : ℕ → ℕ) (d t va : ℕ)
    → Loaded mem d t
    → va < 2 ^ 32
    → (leaf mem (kva d) va ≡ (if early va then some (entry_pgtable (ptx va)) else none))
      × (pte_addr (entry_pgtable (ptx va)) + pgoff va ≡ va % 2 ^ 22)
unfolding pgoff ptx
leaf-early mem d t va loaded h = (
  leaf-entry_pgdir mem d t va loaded ∙ rw (early_slot va h) refl,
  omega (arith, pte_addr-entry_pgtable (ptx va)),
)
