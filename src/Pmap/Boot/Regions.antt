-- ===== src/Pmap/Boot/Regions.antt =====
-- boot_map_region maps its whole region.
use lab3a.Base.{
  ℕ, zero, suc, ◌+◌, ◌*◌, ◌^◌, ◌<◌, ◌≤◌, ◌≡◌, ◌≢◌, inl, inr, refl, sym, subst, true, false,
  Bool-cases, List, [], ◌∷◌, arith, length,
}
use lab3a.Machine.{Kernel, Run, and_then, ◌>>◌}
use lab3a.Machine.Convert.{kva}
use lab3a.Machine.Runs.{Returns, Returns-bind}
use lab3a.Mmu.{pgsize, pdx, present}
use lab3a.Pmap.Boot.{map_entry, map_from, boot_map_region}
use lab3a.Pmap.Boot.Region.{
  missing, missing_mono, missing_less, missing_some, missing-first, entry_for, RegionMapped,
}
use lab3a.Pmap.Walk.{pgdir_walk}
use lab3a.Pmap.Walk.Grow.{Ready, Grows, Walked, Walked-present, Walked-create, written}
use lab3a.Pmap.Walk.Runs.{pde_of}
use lab3a.Pmap.Walk.Translate.{word}
use lab3a.Pmap.Boot.Mapping.{after_walk, map_from-round, map_from-end, reassociated}

-- A round, when the rounds after it do what they should.
module _ (k : Kernel) (d va size pa perm i n fuel : ℕ) (here : pdx (va + i) ≢ 957)
    (fits : va + i + pgsize * suc n ≤ 2 ^ 32)
    (later : (ys : List ℕ) (k2 : Kernel)
      → Ready k2 d ys
      → missing k2.mem d (va + (i + pgsize)) n ≤ length ys
      → Returns
          (λ _ k'. RegionMapped k2 d (va + (i + pgsize)) (pa + (i + pgsize)) perm n k')
          (map_from (kva d) va size pa perm fuel (i + pgsize) k2)) where
  abbrev round : Run (Unit {0})
  round =
      and_then (pgdir_walk (kva d) (va + i) true k)
        (λ o. map_entry pa perm i o >> map_from (kva d) va size pa perm fuel (i + pgsize))

  round-Walked :
      (ys : List ℕ)
      → Returns (Walked k d (va + i) ys) (pgdir_walk (kva d) (va + i) true k)
      → ((mem' : ℕ → ℕ)
          → Grows k.mem d mem'
          → present (mem' (word d (pdx (va + i)))) ≡ true
          → missing mem' d (va + i + pgsize) n ≤ length ys)
      → Returns (λ _ k'. RegionMapped k d (va + i) (pa + i) perm (suc n) k') round
  round-Walked ys walked bound =
      let same : va + (i + pgsize) ≡ va + i + pgsize = omega arith in
      Returns-bind (Walked k d (va + i) ys) _ (pgdir_walk (kva d) (va + i) true k) _ walked
        (λ o k1 w. after_walk k d (va + i) pa i perm n ys o k1 _ w here fits (λ ready g t.
          reassociated (written k1 d (va + i) (entry_for (pa + i) perm)) d va pa perm n i _ (
            later ys (written k1 d (va + i) (entry_for (pa + i) perm)) ready
              (rw same (bound _ g t)))))

  round-absent :
      (ys : List ℕ)
      → Ready k d ys
      → missing k.mem d (va + i) (suc n) ≤ length ys
      → present (pde_of k (kva d) (va + i)) ≡ false
      → Returns (λ _ k'. RegionMapped k d (va + i) (pa + i) perm (suc n) k') round
  round-absent [] ready h absent =
      absurd (let m = missing_some k.mem d (va + i) n absent in omega arith)
  round-absent (p ∷ ys) ready h absent =
      round-Walked ys (Walked-create k d (va + i) p ys ready here absent)
        (λ mem' g t. let m = missing_less k.mem mem' d (va + i) n g absent t in omega arith)

  round-RegionMapped :
      (ys : List ℕ)
      → Ready k d ys
      → missing k.mem d (va + i) (suc n) ≤ length ys
      → Returns (λ _ k'. RegionMapped k d (va + i) (pa + i) perm (suc n) k') round
  round-RegionMapped ys ready h = elim (Bool-cases (present (pde_of k (kva d) (va + i)))) [
    | inl there ↦ round-Walked ys (Walked-present k d (va + i) ys ready here there) (λ mem' g t.
        omega (
          arith,
          missing_mono k.mem mem' d (va + i + pgsize) n g,
          missing-first k.mem d (va + i) n 0 (rw there refl),
        ))
    | inr absent ↦ round-absent ys ready h absent
  ]

map_from-RegionMapped :
    (n fuel : ℕ) (k : Kernel) (d va size pa perm i : ℕ) (xs : List ℕ)
    → n < fuel
    → size ≤ i + pgsize * n
    → i + pgsize * n < size + pgsize
    → va + i + pgsize * n ≤ 2 ^ 32
    → i + pgsize * n < 2 ^ 32
    → ((j : ℕ) → j < n → pdx (va + i + pgsize * j) ≢ 957)
    → Ready k d xs
    → missing k.mem d (va + i) n ≤ length xs
    → Returns
        (λ _ k'. RegionMapped k d (va + i) (pa + i) perm n k')
        (map_from (kva d) va size pa perm fuel i k)
map_from-RegionMapped n zero k d va size pa perm i xs h low high fits small user ready enough =
    absurd (omega arith)
map_from-RegionMapped zero (suc fuel) k d va size pa perm i xs h low high fits small user ready
      enough =
    map_from-end k d va size pa perm fuel i xs (omega arith) ready
map_from-RegionMapped (suc n) (suc fuel) k d va size pa perm i xs h low high fits small user ready
      enough =
    map_from-round _ k (kva d) va size pa perm fuel i (omega arith) (omega arith) (omega arith) (
      round-RegionMapped k d va size pa perm i n fuel
        (subst (λ (a : ℕ). pdx a ≢ 957) (start (va + i)) (user 0 (omega arith))) fits
        (λ ys k2 r e.
          map_from-RegionMapped n fuel k2 d va size pa perm (i + pgsize) ys (omega arith)
            (omega arith) (omega arith) (omega arith) (omega arith)
            (λ j l. subst (λ (a : ℕ). pdx a ≢ 957) (shift j) (user (suc j) (omega arith))) r e)
        xs ready enough)
  where
    start : (a : ℕ) → a + pgsize * 0 ≡ a
    start a = omega arith

    shift : (j : ℕ) → va + i + pgsize * suc j ≡ va + (i + pgsize) + pgsize * j
    shift j = omega arith

-- For a region of n pages, the last perhaps not used to its end, below 2 ^ 32 and outside the slot UVPT, under
-- a well-shaped directory none of whose pages is free, with a free list as long as there are page tables
-- missing: boot_map_region returns, and each page of the region is mapped to its page from pa on, with the
-- permissions and PTE_P, every other address outside the slot UVPT translates as before, and the
-- directory is well shaped and without free pages again.
pub boot_map_region-RegionMapped :
    (n : ℕ) (k : Kernel) (d va size pa perm : ℕ) (xs : List ℕ)
    → size ≤ pgsize * n
    → pgsize * n < size + pgsize
    → va + pgsize * n ≤ 2 ^ 32
    → pgsize * n < 2 ^ 32
    → ((j : ℕ) → j < n → pdx (va + pgsize * j) ≢ 957)
    → Ready k d xs
    → missing k.mem d va n ≤ length xs
    → Returns (λ _ k'. RegionMapped k d va pa perm n k') (boot_map_region (kva d) va size pa perm k)
unfolding boot_map_region
boot_map_region-RegionMapped n k d va size pa perm xs low high fits small user ready enough =
    start (2 ^ 20) (omega arith)
  where
    zero_more : (a : ℕ) → a + 0 ≡ a
    zero_more a = omega arith

    start :
        (fuel : ℕ)
        → n < fuel
        → Returns
            (λ _ k'. RegionMapped k d va pa perm n k')
            (map_from (kva d) va size pa perm fuel 0 k)
    start fuel h =
        subst
          (λ (a : ℕ).
            Returns (λ _ k'. RegionMapped k d a pa perm n k')
              (map_from (kva d) va size pa perm fuel 0 k))
          (zero_more va)
          (subst
            (λ (p : ℕ).
              Returns (λ _ k'. RegionMapped k d (va + 0) p perm n k')
                (map_from (kva d) va size pa perm fuel 0 k))
            (zero_more pa)
            (map_from-RegionMapped n fuel k d va size pa perm 0 xs h (omega arith) (omega arith)
              (omega arith) (omega arith)
              (λ j l. subst (λ (a : ℕ). pdx (a + pgsize * j) ≢ 957) (sym (zero_more va)) (user j l))
              ready
              (subst (λ (a : ℕ). missing k.mem d a n ≤ length xs) (sym (zero_more va)) enough)))
