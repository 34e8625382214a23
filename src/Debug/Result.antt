-- ===== src/Debug/Result.antt =====
-- The region that stab_binsearch leaves.
use lab3a.Base.{
  refl, ℕ, suc, ◌+◌, ◌-◌, ◌^◌, ◌<◌, ◌≤◌, ◌≡◌, Option, none, some, inl, inr, Bool-cases, arith, ltb,
  ap, ltb→lt, subst, ltb→le,
}
use lab3a.Debug.{Stab, Search, stab_binsearch, start, finish, narrow, Region, scan_down, finish_of}
use lab3a.Debug.Scan.{IsLast, Matches, scan_down-IsLast}
use lab3a.Debug.Ends.{search_loop-start}
use lab3a.Debug.Find.{IsSorted, HasNeighbours, Inv, Found, search_loop-Inv}

-- In [left, right) the region r starts at the last stab of type t at or below the address, and ends
-- before the next stab of the type.
abbrev pub Holds : (ℕ → Stab) → ℕ → ℕ → ℕ → ℕ → Region → Type 0
Holds stabs t left right addr r =
    (m : ℕ) × (r.left_next ≡ suc m)
    × (left ≤ m)
    × (m < r.right_next)
    × (r.right_next ≤ right)
    × Matches stabs t m
    × ((stabs m).n_value ≤ addr)
    × ((i : ℕ)
        → m < i
        → i < right
        → Matches stabs t i
        → (r.right_next ≤ i) × (addr < (stabs i).n_value))

IsEmpty : (ℕ → Stab) → ℕ → ℕ → ℕ → Type 0
IsEmpty stabs t left right = (i : ℕ) → left ≤ i → i < right → Matches stabs t i → ⊥

-- Where nothing of the type stands between the found stab and the region's end, the last loop of
-- stab_binsearch goes down to the found stab.
narrow_down :
    (stabs : ℕ → Stab) (t left end : ℕ) (found : Option ℕ)
    → left < end
    → ((i : ℕ) → left < i → i < end → Matches stabs t i → ⊥)
    → IsLast stabs t (suc left) end found
    → narrow found left end ≡ suc left
narrow_down stabs t left end none h clear last = ground arith
narrow_down stabs t left end (some m) h clear last =
    absurd (clear m (omega (arith, last.0)) last.1 last.2)

module _ (stabs : ℕ → Stab) (t left right addr : ℕ) where
  finish-Holds :
      (s : Search)
      → Inv stabs t left right addr s
      → s.end ≤ s.l
      → Found stabs t left right addr s
      → Holds stabs t left right addr (finish stabs t s)
  unfolding finish
  finish-Holds s inv over f =
      let last_match : (i : ℕ) → s.region_left < i → i < s.region_end → Matches stabs t i → ⊥ =
        λ i low high m.
          omega (arith, inv.below i (omega (arith, inv.from)) (omega (arith, inv.ends)) m) in
      let left_same =
        narrow_down stabs t s.region_left s.region_end
          (scan_down stabs t (suc s.region_left) (s.region_end - suc s.region_left))
          (omega (arith, f.2, inv.ends)) last_match
          (subst
            (λ (e : ℕ).
              IsLast stabs t (suc s.region_left) e
                (scan_down stabs t (suc s.region_left) (s.region_end - suc s.region_left)))
            (omega (arith, f.2, inv.ends))
            (scan_down-IsLast stabs t (suc s.region_left) (s.region_end - suc s.region_left))) in
      rw (f.3) (
        s.region_left,
        left_same,
        inv.from,
        omega (arith, f.2, inv.ends),
        omega (arith, inv.high, inv.ends),
        f.0,
        f.1,
        λ i low high m. elim (Bool-cases (ltb i s.end)) [
          | inl e ↦ absurd (last_match i low (rw (inv.ends) (ltb→lt i s.end e)) m)
          | inr e ↦ (rw (inv.ends) (ltb→le i s.end e), inv.above i (ltb→le i s.end e) high m)
        ],
      )

  start-Inv : left ≤ right → Inv stabs t left right addr (start left right addr)
  start-Inv h = record {
    low = omega arith;
    high = omega arith;
    order = h;
    ends = refl;
    from = omega arith;
    behind = omega arith;
    goal = inl refl;
    below = λ i low high. absurd (omega arith);
    above = λ i low high. absurd (omega arith);
    found = inr (λ i low high m. omega arith);
  }

  found-at :
      (s : Search)
      → Inv stabs t left right addr s
      → s.end ≤ s.l
      → (a : ℕ) → left ≤ a
      → a < right
      → Matches stabs t a
      → (stabs a).n_value ≤ addr
      → Found stabs t left right addr s
  found-at s inv over a low high m value = elim inv.found [
    | inl f ↦ f
    | inr clear ↦ elim (Bool-cases (ltb a s.l)) [
      | inl e ↦ absurd (clear a low (ltb→lt a s.l e) m)
      | inr e ↦
          let more = inv.above a (omega (arith, ltb→le a s.l e)) high m in absurd (omega arith)
    ]
  ]

  -- For stabs of a type whose values do not fall in the region [left, right), one of which is at or below an
  -- address below 2 ^ 32 - 1, and no two of which are at the address and one behind it: stab_binsearch
  -- returns the region from the last of these stabs that is at or below the address to the place before
  -- the next stab of the type, or to the end.
  pub stab_binsearch-Holds :
      IsSorted stabs t left right
      → (HasNeighbours stabs t left right addr → ⊥)
      → addr + 1 < 2 ^ 32
      → (a : ℕ) → left ≤ a
      → a < right
      → Matches stabs t a
      → (stabs a).n_value ≤ addr
      → (r : Region) × (stab_binsearch stabs left right t addr ≡ some r)
        × Holds stabs t left right addr r
  unfolding stab_binsearch
  stab_binsearch-Holds sorted apart small a low high m value =
      let ended = search_loop-start stabs left right t addr in
      let s = ended.0 in
      let stopped =
        search_loop-Inv stabs t left right addr sorted apart small _ _ s (start-Inv (omega arith))
          ended.1 in
      (
        finish stabs t s,
        ap (finish_of stabs t) ended.1,
        finish-Holds s stopped.0 stopped.1 (found-at s stopped.0 stopped.1 a low high m value),
      )
