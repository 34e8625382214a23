-- ===== src/Env/Unmap.antt =====
-- The loops of env_free of kern/env.c return, and clear the user part of the directory.
use lab3a.Base.{
  refl, ℕ, zero, suc, ◌+◌, ◌*◌, ◌<◌, ◌≤◌, ◌≡◌, inl, inr, sym, subst, true, some, arith, Bool-cases,
  ==_iff, Option-cases, update, false, update_self, ◌==◌,
}
use lab3a.Mmu.{pgnum, present, pdx, ptx, pte_addr, pgaddr, kernbase}
use lab3a.Mmu.Address.{pgaddr_fields}
use lab3a.Mmu.Entry.{bit_and-pte_p, pgnum-pte_addr}
use lab3a.Machine.{M, Run, panicked, monitor_loop, user_mode, out_of_fuel, Kernel, done, and_then}
use lab3a.Machine.Runs.{Returns, Returns-mono}
use lab3a.Machine.Convert.{kva, Fits, kaddr, pa2page-ok}
use lab3a.Pmap.Page.Release.{dropped, mem-dropped, page_decref-ok}
use lab3a.Pmap.Walk.{page_remove}
use lab3a.Pmap.Walk.Runs.{pde_of, page_lookup-leaf}
use lab3a.Pmap.Walk.Translate.{leaf, pte_at, pte_at-word, ptx-lt, word}
use lab3a.Env.{unmap_ptes, kaddr, unmap_table, unmap_tables}
use lab3a.Env.Sound.{
  Shrunk-absent, Sound, Kept, Kept-self, Kept-trans, Kept-dropped, Kept-store, Sound-Kept,
}

module _ (k : Kernel) (d va : ℕ) (fits : Fits k) (s : Sound k.npages k.mem d)
    (user : pdx va < 955) where
  in_memory : (pte : ℕ) → leaf k.mem (kva d) va ≡ some pte → pgnum pte < k.npages
  in_memory pte e = elim (Bool-cases (present (pde_of k (kva d) va))) [
    | inr h ↦ ground (arith, e)
    | inl h ↦ elim (Bool-cases (present (k.mem (pte_at (pde_of k (kva d) va) va)))) [
      | inr h' ↦ ground arith
      | inl h' ↦
          let same : k.mem (pte_at (pde_of k (kva d) va) va) ≡ pte = ground arith in
          let place = pte_at-word (pde_of k (kva d) va) va in
          subst (λ (t : ℕ). pgnum t < k.npages) same
            (subst (λ (a : ℕ). pgnum (k.mem a) < k.npages) (sym place)
              (s.frames (pdx va) (ptx va) user (ptx-lt va) h
                (subst (λ (a : ℕ). present (k.mem a) ≡ true) place h')))
    ]
  ]

  -- page_remove of a user page returns, whatever it finds.
  pub page_remove-Kept : Returns (λ _ k'. Kept k k' × Unit {0}) (page_remove (kva d) va k)
  unfolding page_remove
  page_remove-Kept = elim (Option-cases (leaf k.mem (kva d) va)) [
    | inl e ↦
        rw (page_lookup-leaf k (kva d) va fits (s.tables (pdx va) user) in_memory, e)
          (Kept-self k, tt)
    | inr (pte, e) ↦
        rw
          (page_lookup-leaf k (kva d) va fits (s.tables (pdx va) user) in_memory, e, page_decref-ok)
          (
            Kept-trans k (dropped (pgnum (pte_addr pte)) k) _
                (Kept-dropped k (pgnum (pte_addr pte)))
                (Kept-store (dropped (pgnum (pte_addr pte)) k) _ _),
            tt,
          )
  ]

-- The run of two steps, from what each keeps and gives.
pub Kept-seq :
    (Q P : Kernel → Type 0) (k : Kernel) (r : Run (Unit {0})) (m : M (Unit {0}))
    → Returns (λ _ k'. Kept k k' × Q k') r
    → ((k' : Kernel) → Kept k k' → Q k' → Returns (λ _ k''. Kept k' k'' × P k'') (m k'))
    → Returns (λ _ k''. Kept k k'' × P k'') (and_then r (λ _. m))
Kept-seq Q P k (done a k') m h f =
    Returns-mono _ _ (m k') (λ b k'' t. (Kept-trans k k' k'' h.0 t.0, t.1)) (f k' h.0 h.1)
Kept-seq Q P k (panicked p k') m h f = h
Kept-seq Q P k (monitor_loop k') m h f = h
Kept-seq Q P k (user_mode t k') m h f = h
Kept-seq Q P k out_of_fuel m h f = h

abbrev pub Nothing : Kernel → Type 0
Nothing k = Unit {0}

-- The environment's directory is the page `d`, and its user part is sound.
pub record Ready (e d : ℕ) (k : Kernel) : Type 0 where
  pub fits : Fits k
  pub pgdir : (k.envs e).env_pgdir ≡ kva d
  pub sound : Sound k.npages k.mem d

pub Ready-Kept : (e d : ℕ) (k k' : Kernel) → Ready e d k → Kept k k' → Ready e d k'
Ready-Kept e d k k' r kept = record {
  fits = rw (kept.npages) r.fits;
  pgdir = rw (kept.envs) r.pgdir;
  sound = Sound-Kept k k' d kept r.sound;
}

address_of : (i j : ℕ) → i < 1024 → j < 1024 → pdx (pgaddr i j 0) ≡ i
address_of i j h h' = (pgaddr_fields i j 0 h h' (omega arith)).0

unmap_ptes-Kept :
    (e d pt i rounds j : ℕ) (k : Kernel)
    → Ready e d k
    → i < 955
    → j + rounds ≤ 1024
    → Returns (λ _ k'. Kept k k' × Unit {0}) (unmap_ptes e pt i rounds j k)
unfolding unmap_ptes
unmap_ptes-Kept e d pt i zero j k r hi hj = (Kept-self k, tt)
unmap_ptes-Kept e d pt i (suc rounds) j k r hi hj =
    let rest : (k' : Kernel)
        → Kept k k'
        → Returns (λ _ k''. Kept k' k'' × Unit {0}) (unmap_ptes e pt i rounds (suc j) k') =
      λ k' kept.
        unmap_ptes-Kept e d pt i rounds (suc j) k' (Ready-Kept e d k k' r kept) hi (omega arith) in
    elim (Bool-cases (present (k.mem (pt + 4 * j)))) [
      | inl p ↦
          rw (bit_and-pte_p, p, r.pgdir)
            (Kept-seq Nothing Nothing k _ _
              (page_remove-Kept k d (pgaddr i j 0) r.fits r.sound user) (λ k' kept _. rest k' kept))
      | inr p ↦ rw (bit_and-pte_p, p) (rest k (Kept-self k))
    ]
  where
    user : pdx (pgaddr i j 0) < 955
    user = rw (address_of i j (omega arith) (omega arith)) hi

kaddr-ok :
    (k : Kernel) (pde : ℕ)
    → Fits k
    → pgnum pde < k.npages
    → kaddr (pte_addr pde) k ≡ done (kernbase + pte_addr pde) k
unfolding kaddr pgnum pte_addr
kaddr-ok k pde fits h = ground arith

module _ (e d i : ℕ) (hi : i < 955) where
  abbrev Emptied : Kernel → Type 0
  Emptied k = present (k.mem (word d i)) ≡ false

  -- The end of the loop's body: the entry is cleared and the table's page released.
  cleared_table : ℕ → ℕ → Kernel → Kernel
  cleared_table at table k = dropped table (record k { mem = update k.mem at 0 })

  cleared_table-Kept :
      (k : Kernel) (table : ℕ)
      → Kept k (cleared_table (word d i) table k) × Emptied (cleared_table (word d i) table k)
  unfolding cleared_table present
  cleared_table-Kept k table =
      let k' = record k { mem = update k.mem (word d i) 0 } in
      (
        Kept-trans k k' (dropped table k') (Kept-store k (word d i) k.invalidated)
            (Kept-dropped k' table),
        rw (mem-dropped table k', update_self) refl,
      )

  unmap_table-Kept :
      (k : Kernel) → Ready e d k → Returns (λ _ k'. Kept k k' × Emptied k') (unmap_table e i k)
  unfolding unmap_table cleared_table
  unmap_table-Kept k r = elim (Bool-cases (present (k.mem (word d i)))) [
    | inr p ↦ rw (r.pgdir, bit_and-pte_p, p) (Kept-self k, p)
    | inl p ↦
        let m = r.sound.tables i hi p in
        rw (r.pgdir, bit_and-pte_p, p, kaddr-ok k (k.mem (word d i)) r.fits m)
          (Kept-seq Nothing Emptied k _ _
            (unmap_ptes-Kept e d (kernbase + pte_addr (k.mem (word d i))) i 1024 0 k r hi
              (omega arith))
            (λ k' kept _.
              rw
                (
                  pa2page-ok (record k' { mem = update k'.mem (word d i) 0 })
                      (pte_addr (k.mem (word d i))) (rw (pgnum-pte_addr, kept.npages) m),
                  page_decref-ok,
                )
                (cleared_table-Kept k' _)))
  ]

-- After the loop from `i` on, the slots from `i` on are empty.
abbrev pub EmptySlots : ℕ → ℕ → ℕ → Kernel → Type 0
EmptySlots d i n k = (j : ℕ) → i ≤ j → j < i + n → present (k.mem (word d j)) ≡ false

one_more :
    (d i rounds : ℕ) (k k' : Kernel)
    → Kept k k'
    → present (k.mem (word d i)) ≡ false
    → EmptySlots d (suc i) rounds k'
    → EmptySlots d i (suc rounds) k'
one_more d i rounds k k' kept empty rest j l u = elim (Bool-cases (j == i)) [
  | inl e ↦ rw ((==_iff j i).0 e) (Shrunk-absent k.mem k'.mem (word d i) kept.mem empty)
  | inr e ↦ rest j (ground arith) (omega arith)
]

pub unmap_tables-Kept :
    (e d rounds i : ℕ) (k : Kernel)
    → Ready e d k
    → i + rounds ≤ 955
    → Returns (λ _ k'. Kept k k' × EmptySlots d i rounds k') (unmap_tables e rounds i k)
unfolding unmap_tables
unmap_tables-Kept e d zero i k r h = (Kept-self k, λ j l u. absurd (omega arith))
unmap_tables-Kept e d (suc rounds) i k r h =
    let user : i < 955 = omega arith in
    Kept-seq (Emptied e d i user) (EmptySlots d i (suc rounds)) k _ _
      (unmap_table-Kept e d i user k r)
      λ k' kept empty.
        Returns-mono (λ _ k''. Kept k' k'' × EmptySlots d (suc i) rounds k'')
          (λ _ k''. Kept k' k'' × EmptySlots d i (suc rounds) k'')
          (unmap_tables e rounds (suc i) k')
          (λ _ k'' t. (t.0, one_more d i rounds k' k'' t.0 empty t.1))
          (unmap_tables-Kept e d rounds (suc i) k' (Ready-Kept e d k k' r kept) (omega arith))
