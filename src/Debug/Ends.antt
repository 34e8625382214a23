-- ===== src/Debug/Ends.antt =====
-- stab_binsearch terminates: every round of its main loop makes the region smaller, or moves the
-- address off the stab at its left end.
use lab3a.Base.{
  zero, refl, ℕ, ◌+◌, ◌-◌, ◌*◌, ◌<◌, Option, none, some, ◌==◌, if◌then◌else◌, arith, subst, ◌≡◌,
  suc, Bool-cases, ltb, ap, inl, ltb→lt, inr,
}
use lab3a.Debug.{
  Stab, Search, middle, round_at, scan_down, search_loop, stab_binsearch, Region, search_fuel,
  start, finish, finish_of, round,
}
use lab3a.Debug.Scan.{IsLast, scan_down-IsLast}

abbrev measure : (ℕ → Stab) → Search → ℕ
measure stabs s = 2 * (s.end - s.l) + (if (stabs s.l).n_value == s.addr then 1 else 0)

round_at-measure :
    (stabs : ℕ → Stab) (t : ℕ) (s : Search) (found : Option ℕ)
    → s.l < s.end
    → IsLast stabs t s.l (middle s + 1) found
    → measure stabs (round_at stabs s found) < measure stabs s
unfolding round_at
round_at-measure stabs t s none h last = ground arith
round_at-measure stabs t s (some m) h last = ground (arith)

pub IsLast-middle :
    (stabs : ℕ → Stab) (t : ℕ) (s : Search)
    → s.l < s.end
    → IsLast stabs t s.l (middle s + 1) (scan_down stabs t s.l (middle s + 1 - s.l))
IsLast-middle stabs t s h =
    subst (λ (e : ℕ). IsLast stabs t s.l e (scan_down stabs t s.l (middle s + 1 - s.l)))
      (omega arith) (scan_down-IsLast stabs t s.l (middle s + 1 - s.l))

-- The loop is left, with fuel above the measure, in a state that no round follows.
search_loop-ends :
    (stabs : ℕ → Stab) (t fuel : ℕ) (s : Search)
    → measure stabs s < fuel
    → (s' : Search) × (search_loop stabs t fuel s ≡ some s')
unfolding search_loop
search_loop-ends stabs t zero s h = absurd (omega arith)
search_loop-ends stabs t (suc fuel) s h = elim (Bool-cases (ltb s.l s.end)) [
  | inl e ↦ rw e (
      search_loop-ends stabs t fuel (round stabs t s) (
        omega (
          arith,
          round_at-measure stabs t s (scan_down stabs t s.l (middle s + 1 - s.l))
              (ltb→lt s.l s.end e) (IsLast-middle stabs t s (ltb→lt s.l s.end e)),
        )))
  | inr e ↦ rw e (s, refl)
]

pub search_loop-start :
    (stabs : ℕ → Stab) (left right_next t addr : ℕ)
    → (s : Search) × (search_loop stabs t (search_fuel left right_next) (start left right_next addr)
        ≡ some s)
search_loop-start stabs left right_next t addr =
    search_loop-ends stabs t (search_fuel left right_next) (start left right_next addr)
      (ground arith)

-- stab_binsearch terminates on every table, sorted or not: it returns a region after at most twice as
-- many rounds as the region that it is given has stabs, and two more.
pub stab_binsearch_ends :
    (stabs : ℕ → Stab) (left right_next t addr : ℕ)
    → (r : Region) × (stab_binsearch stabs left right_next t addr ≡ some r)
unfolding stab_binsearch
stab_binsearch_ends stabs left right_next t addr =
    let ended = search_loop-start stabs left right_next t addr in
    (finish stabs t ended.0, ap (finish_of stabs t) ended.1)
