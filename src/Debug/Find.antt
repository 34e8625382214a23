-- ===== src/Debug/Find.antt =====
-- stab_binsearch finds the last stab of its type at or below the address: the invariant of its main
-- loop, on stabs whose values do not fall.
use lab3a.Mmu.{u32}
use lab3a.Base.{
  refl, ◌^◌, ltb→lt, ltb→le, ℕ, zero, suc, ◌+◌, ◌-◌, ◌<◌, ◌≤◌, ◌≡◌, Option, none, some, true, ◌==◌,
  inl, inr, Bool-cases, arith, ltb, ◌⊎◌, ◌^◌, ltb→lt, ltb→le, ◌≢◌, ap, ==_iff, subst,
}
use lab3a.Debug.{Stab, Search, middle, round_at, round, scan_down, search_loop, u32}
use lab3a.Debug.Scan.{IsLast, Matches}
use lab3a.Debug.Ends.{IsLast-middle}

-- The stabs of type t in [left, right) do not fall.
abbrev pub IsSorted : (ℕ → Stab) → ℕ → ℕ → ℕ → Type 0
IsSorted stabs t left right =
    (i j : ℕ)
    → left ≤ i
    → i ≤ j
    → j < right
    → Matches stabs t i
    → Matches stabs t j
    → (stabs i).n_value ≤ (stabs j).n_value

-- A stab of type t stands at the address, and another at the one behind it.
abbrev pub HasNeighbours : (ℕ → Stab) → ℕ → ℕ → ℕ → ℕ → Type 0
HasNeighbours stabs t left right addr =
    (i : ℕ) × (j : ℕ) × (left ≤ i)
    × (i < right)
    × (left ≤ j)
    × (j < right)
    × Matches stabs t i
    × Matches stabs t j
    × ((stabs i).n_value ≡ addr)
    × ((stabs j).n_value ≡ addr + 1)

module _ (stabs : ℕ → Stab) (t left right addr : ℕ) where
  abbrev pub Found : Search → Type 0
  Found s =
      Matches stabs t s.region_left
      × ((stabs s.region_left).n_value ≤ addr)
      × (s.region_left < s.end)
      × (s.any_matches ≡ true)

  pub record Inv (s : Search) : Type 0 where
    pub low : left ≤ s.l
    pub high : s.end ≤ right
    pub order : s.l ≤ s.end
    pub ends : s.region_end ≡ s.end
    pub from : left ≤ s.region_left
    pub behind : s.region_left ≤ s.l
    pub goal :
        (s.addr ≡ addr)
        ⊎ ((s.addr ≡ addr + 1)
            × ((i : ℕ) × (left ≤ i) × (i < right) × Matches stabs t i × ((stabs i).n_value ≡ addr)))
    pub below :
        (i : ℕ)
        → left ≤ i
        → i < s.l
        → Matches stabs t i
        → ((stabs i).n_value ≤ addr) × (i ≤ s.region_left)
    pub above : (i : ℕ) → s.end ≤ i → i < right → Matches stabs t i → addr < (stabs i).n_value
    pub found : Found s ⊎ ((i : ℕ) → left ≤ i → i < s.l → Matches stabs t i → ⊥)

  module _ (sorted : IsSorted stabs t left right)
      (apart : HasNeighbours stabs t left right addr → ⊥) (small : addr + 1 < 2 ^ 32) where
    none-Inv :
        (s : Search)
        → Inv s
        → s.l < s.end
        → IsLast stabs t s.l (middle s + 1) none
        → Inv (record s { l = middle s + 1 })
    none-Inv s inv h last =
        let passed : (i : ℕ) → left ≤ i → i < middle s + 1 → Matches stabs t i → i < s.l =
          λ i low high m. elim (Bool-cases (ltb i s.l)) [
            | inl e ↦ ltb→lt i s.l e
            | inr e ↦ absurd (last i (ltb→le i s.l e) high m)
          ] in
        record {
          low = omega (arith, inv.low);
          high = inv.high;
          order = omega arith;
          ends = inv.ends;
          from = inv.from;
          behind = omega (arith, inv.behind);
          goal = inv.goal;
          below = λ i low high m. inv.below i low (passed i low high m) m;
          above = inv.above;
          found = elim inv.found [
            | inl f ↦ inl f
            | inr clear ↦ inr (λ i low high m. clear i low (passed i low high m) m)
          ];
        }

    less-Inv :
        (s : Search) (m : ℕ)
        → Inv s
        → s.l < s.end
        → IsLast stabs t s.l (middle s + 1) (some m)
        → (stabs m).n_value < s.addr
        → Inv (record s { any_matches = true; region_left = m; l = middle s + 1 })
    less-Inv s m inv h last less =
        let at_most : (stabs m).n_value ≤ addr = elim inv.goal [
          | inl e ↦ omega arith
          | inr e ↦ omega (arith, e.0)
        ] in
        record {
          low = omega (arith, inv.low);
          high = inv.high;
          order = omega arith;
          ends = inv.ends;
          from = omega (arith, inv.low, last.0);
          behind = omega (arith, last.1);
          goal = inv.goal;
          below = λ i low high f.
              let i_le : i ≤ m = elim (Bool-cases (ltb m i)) [
                | inl e ↦ absurd (last.3 i (ltb→lt m i e) high f)
                | inr e ↦ ltb→le m i e
              ] in
              (omega (arith, sorted i m low i_le (omega (arith, last.1, inv.high)) f last.2), i_le);
          above = inv.above;
          found = inl (last.2, at_most, omega (arith, last.1), refl);
        }

    greater-Inv :
        (s : Search) (m : ℕ)
        → Inv s
        → s.l < s.end
        → IsLast stabs t s.l (middle s + 1) (some m)
        → s.addr < (stabs m).n_value
        → Inv (record s { any_matches = true; region_end = m; end = m })
    greater-Inv s m inv h last greater =
        let crossed : Found s → s.region_left ≢ m = λ f e.
          let same = ap (λ (i : ℕ). (stabs i).n_value) e in
          elim inv.goal [ inl g ↦ omega (arith, f.1) | inr g ↦ omega (arith, f.1, g.0) ] in
        let left_of : Found s → s.region_left < m = λ f. elim (Bool-cases (s.region_left == m)) [
          | inl e ↦ absurd (crossed f ((==_iff s.region_left m).0 e))
          | inr e ↦ ground (arith, last.0, inv.behind)
        ] in
        record {
          low = inv.low;
          high = omega (arith, last.1, inv.high);
          order = last.0;
          ends = refl;
          from = inv.from;
          behind = inv.behind;
          goal = inv.goal;
          below = inv.below;
          above = λ i low high f.
              let value_le = sorted m i (omega (arith, inv.low, last.0)) low high last.2 f in
              elim inv.goal [ inl e ↦ omega arith | inr e ↦ omega (arith, e.0) ];
          found = elim inv.found [
            | inl f ↦ inl (f.0, f.1, left_of f, refl)
            | inr clear ↦ inr clear
          ];
        }

    equal-Inv :
        (s : Search) (m : ℕ)
        → Inv s
        → s.l < s.end
        → IsLast stabs t s.l (middle s + 1) (some m)
        → (stabs m).n_value ≡ s.addr
        → Inv (record s { any_matches = true; region_left = m; l = m; addr = u32 (s.addr + 1) })
    equal-Inv s m inv h last equal =
        let exact : s.addr ≡ addr = elim inv.goal [
          | inl e ↦ e
          | inr e ↦ absurd (
              apart (
                e.1.0,
                m,
                e.1.1,
                e.1.2,
                omega (arith, inv.low, last.0),
                omega (arith, last.1, inv.high),
                e.1.3,
                last.2,
                e.1.4,
                omega (arith, e.0),
              ))
        ] in
        let up : u32 (s.addr + 1) ≡ addr + 1 = omega arith in
        record {
          low = omega (arith, inv.low, last.0);
          high = inv.high;
          order = omega (arith, last.1);
          ends = inv.ends;
          from = omega (arith, inv.low, last.0);
          behind = omega arith;
          goal = inr (
            up,
            (
              m,
              omega (arith, inv.low, last.0),
              omega (arith, last.1, inv.high),
              last.2,
              omega arith,
            ),
          );
          below = λ i low high f. (
            omega (arith, sorted i m low (omega arith) (omega (arith, last.1, inv.high)) f last.2),
            omega arith,
          );
          above = inv.above;
          found = inl (last.2, omega arith, omega (arith, last.1), refl);
        }

    round_at-Inv :
        (s : Search) (found : Option ℕ)
        → Inv s
        → s.l < s.end
        → IsLast stabs t s.l (middle s + 1) found
        → Inv (round_at stabs s found)
    unfolding round_at
    round_at-Inv s none inv h last = none-Inv s inv h last
    round_at-Inv s (some m) inv h last = elim (Bool-cases (ltb (stabs m).n_value s.addr)) [
      | inl less ↦ rw less (less-Inv s m inv h last (ltb→lt (stabs m).n_value s.addr less))
      | inr more ↦ rw more (elim (Bool-cases (ltb s.addr (stabs m).n_value)) [
        | inl greater ↦
            rw greater (greater-Inv s m inv h last (ltb→lt s.addr (stabs m).n_value greater))
        | inr equal ↦ rw equal (equal-Inv s m inv h last (ground arith))
      ])
    ]

    pub search_loop-Inv :
        (fuel : ℕ) (s s' : Search)
        → Inv s
        → search_loop stabs t fuel s ≡ some s'
        → Inv s' × (s'.end ≤ s'.l)
    unfolding search_loop
    search_loop-Inv zero s s' inv h = cc
    search_loop-Inv (suc fuel) s s' inv h = elim (Bool-cases (ltb s.l s.end)) [
      | inl e ↦
          let more = ltb→lt s.l s.end e in
          search_loop-Inv fuel (round stabs t s) s'
            (round_at-Inv s (scan_down stabs t s.l (middle s + 1 - s.l)) inv more
              (IsLast-middle stabs t s more))
            (rw e at h)
      | inr e ↦
          let same : s ≡ s' = (cc) in
          subst (λ (f : Search). Inv f × (f.end ≤ f.l)) same (inv, ltb→le s.l s.end e)
    ]
