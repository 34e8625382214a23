-- ===== src/Pmap/Boot/Mapping.antt =====
-- The loop of boot_map_region, page by page.
use lab3a.Base.{
  ℕ, zero, suc, ◌+◌, ◌*◌, ◌^◌, ◌<◌, ◌≤◌, ◌≡◌, ◌≢◌, refl, sym, subst, Option, some, true, false,
  List, arith, ◌∙◌, ltb, lt→ltb,
}
use lab3a.Machine.{Kernel, M, Run, and_then, ◌>>◌}
use lab3a.Machine.Convert.{kva}
use lab3a.Machine.Runs.{Returns, Returns-mono}
use lab3a.Mmu.{u32, pgsize, pdx, present}
use lab3a.Mmu.Entry.{present-entry}
use lab3a.Pmap.Boot.{map_entry, map_from}
use lab3a.Pmap.Boot.Region.{entry_for, RegionMapped, pages-Apart}
use lab3a.Pmap.Walk.{pgdir_walk}
use lab3a.Pmap.Walk.Grow.{Ready, Grows, Walked, written, written_at, written-Ready}
use lab3a.Pmap.Walk.Remove.{leaf-write_self, leaf-write_ne}
use lab3a.Pmap.Walk.Runs.{pde_of}
use lab3a.Pmap.Walk.Translate.{Apart, leaf, word, pdx-lt}

-- The first page in front of the others.
mapped-first :
    (k : Kernel) (d va pa perm n : ℕ) (ys : List ℕ) (k' : Kernel)
    → Ready k d ys
    → present (pde_of k (kva d) va) ≡ true
    → pdx va ≢ 957
    → va + pgsize * suc n ≤ 2 ^ 32
    → RegionMapped (written k d va (entry_for pa perm)) d (va + pgsize) (pa + pgsize) perm n k'
    → RegionMapped k d va pa perm (suc n) k'
mapped-first k d va pa perm n ys k' ready table user fits (entries, others, size, more) =
    (entry, kept, size, more)
  where
    start : va + pgsize * 0 ≡ va
    start = omega arith

    start_pa : pa + pgsize * 0 ≡ pa
    start_pa = omega arith

    shift : (a j : ℕ) → a + pgsize + pgsize * j ≡ a + pgsize * suc j
    shift a j = omega arith

    here : leaf (written k d va (entry_for pa perm)).mem (kva d) va ≡ some (entry_for pa perm)
    here =
        leaf-write_self k.npages k.mem d va (entry_for pa perm) ready.dir user table
        ∙ (rw (present-entry _))

    entry :
        (j : ℕ)
        → j < suc n
        → leaf k'.mem (kva d) (va + pgsize * j) ≡ some (entry_for (pa + pgsize * j) perm)
    entry zero h =
        rw (start, start_pa) (others va user (λ j l. pages-Apart va j (omega arith)) ∙ here)
    entry (suc j) h =
        subst (λ (a : ℕ). leaf k'.mem (kva d) a ≡ some (entry_for (pa + pgsize * suc j) perm))
          (shift va j)
          (subst
            (λ (p : ℕ). leaf k'.mem (kva d) (va + pgsize + pgsize * j) ≡ some (entry_for p perm))
            (shift pa j) (entries j (omega arith)))

    kept :
        (va' : ℕ)
        → pdx va' ≢ 957
        → ((j : ℕ) → j < suc n → Apart (va + pgsize * j) va')
        → leaf k'.mem (kva d) va' ≡ leaf k.mem (kva d) va'
    kept va' user' away =
        others va' user'
          (λ j h. subst (λ (a : ℕ). Apart a va') (sym (shift va j)) (away (suc j) (omega arith)))
        ∙ leaf-write_ne k.npages k.mem d va (entry_for pa perm) ready.dir user table va' user'
            (subst (λ (a : ℕ). Apart a va') start (away 0 (omega arith)))

-- What the walk kept is kept.
mapped-walked :
    (k k1 : Kernel) (d va pa perm n : ℕ) (k' : Kernel)
    → ((va' : ℕ) → pdx va' ≢ 957 → leaf k1.mem (kva d) va' ≡ leaf k.mem (kva d) va')
    → k1.npages ≡ k.npages
    → RegionMapped k1 d va pa perm n k'
    → RegionMapped k d va pa perm n k'
mapped-walked k k1 d va pa perm n k' same size (entries, others, size', more) =
    (entries, (λ va' user away. others va' user away ∙ same va' user), size' ∙ size, more)

-- What follows pgdir_walk in a round.
pub after_walk :
    (k : Kernel) (d va pa i perm n : ℕ) (ys : List ℕ) (o : Option ℕ) (k1 : Kernel)
    (rest : M (Unit {0}))
    → Walked k d va ys o k1
    → pdx va ≢ 957
    → va + pgsize * suc n ≤ 2 ^ 32
    → (Ready (written k1 d va (entry_for (pa + i) perm)) d ys
        → Grows k.mem d (written k1 d va (entry_for (pa + i) perm)).mem
        → present ((written k1 d va (entry_for (pa + i) perm)).mem (word d (pdx va))) ≡ true
        → Returns
            (λ _ k'.
              RegionMapped
                (written k1 d va (entry_for (pa + i) perm))
                d
                (va + pgsize)
                (pa + i + pgsize)
                perm
                n
                k')
            (rest (written k1 d va (entry_for (pa + i) perm))))
    → Returns
        (λ _ k'. RegionMapped k d va (pa + i) perm (suc n) k')
        ((map_entry pa perm i o >> rest) k1)
unfolding map_entry
after_walk k d va pa i perm n ys o k1 rest (e, table, ready, same, grows, size) user fits next =
    rw e (
      Returns-mono _ _ (rest (written k1 d va (entry_for (pa + i) perm)))
        (λ _ k' m.
          mapped-walked k k1 d va (pa + i) perm (suc n) k' same size
            (mapped-first k1 d va (pa + i) perm n ys k' ready table user fits m))
        (next (written-Ready k1 d va _ ys ready user table) (λ j h p. rw (at j h) (grows j h p))
          (rw (at (pdx va) (pdx-lt va)) table)))
  where
    at :
        (j : ℕ)
        → j < 1024
        → (written k1 d va (entry_for (pa + i) perm)).mem (word d j) ≡ k1.mem (word d j)
    at = written_at k1 d va (entry_for (pa + i) perm) ys ready user table

pub map_from-round :
    (Q : Unit {0} → Kernel → Type 0) (k : Kernel) (pgdir va size pa perm fuel i : ℕ)
    → i < size
    → va + i < 2 ^ 32
    → i + pgsize < 2 ^ 32
    → Returns Q (
        and_then
          (pgdir_walk pgdir (va + i) true k)
          (λ o. map_entry pa perm i o >> map_from pgdir va size pa perm fuel (i + pgsize)))
    → Returns Q (map_from pgdir va size pa perm (suc fuel) i k)
unfolding map_from
map_from-round Q k pgdir va size pa perm fuel i more fits next h =
    let same : u32 (va + i) ≡ va + i = omega arith in
    let same' : u32 (i + pgsize) ≡ i + pgsize = omega arith in
    rw (lt→ltb i size more, same, same') h

pub map_from-end :
    (k : Kernel) (d va size pa perm fuel i : ℕ) (xs : List ℕ)
    → size ≤ i
    → Ready k d xs
    → Returns
        (λ _ k'. RegionMapped k d (va + i) (pa + i) perm 0 k')
        (map_from (kva d) va size pa perm (suc fuel) i k)
unfolding map_from
map_from-end k d va size pa perm fuel i xs h ready =
    let over : ltb i size ≡ false = ground arith in
    rw over ((λ j l. absurd (omega arith)), (λ va' _ _. refl), refl, (xs, ready))

pub reassociated :
    (k : Kernel) (d va pa perm n i : ℕ) (r : Run (Unit {0}))
    → Returns (λ _ k'. RegionMapped k d (va + (i + pgsize)) (pa + (i + pgsize)) perm n k') r
    → Returns (λ _ k'. RegionMapped k d (va + i + pgsize) (pa + i + pgsize) perm n k') r
reassociated k d va pa perm n i r h =
    subst (λ (a : ℕ). Returns (λ _ k'. RegionMapped k d a (pa + i + pgsize) perm n k') r) (assoc va)
      (subst (λ (p : ℕ). Returns (λ _ k'. RegionMapped k d (va + (i + pgsize)) p perm n k') r)
        (assoc pa) h)
  where
    assoc : (a : ℕ) → a + (i + pgsize) ≡ a + i + pgsize
    assoc a = omega arith
