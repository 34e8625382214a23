-- ===== src/Debug/Scan.antt =====
-- The loops of stab_binsearch that go down through the stabs: what they find.
use lab3a.Base.{
  ℕ, zero, suc, ◌+◌, ◌<◌, ◌≤◌, ◌≡◌, Option, none, some, true, false, ◌==◌, inl, inr, Bool-cases,
  arith, sym, ◌∙◌, subst, ==_iff,
}
use mathlib.Core.Bool.{false≢true}
use lab3a.Debug.{Stab, scan_down}

-- The stab at place i has the type t.
abbrev pub Matches : (ℕ → Stab) → ℕ → ℕ → Type 0
Matches stabs t i = ((stabs i).n_type == t) ≡ true

-- The last match of [l, end), or that there is none.
abbrev pub IsLast : (ℕ → Stab) → ℕ → ℕ → ℕ → Option ℕ → Type 0
IsLast stabs t l end none = (i : ℕ) → l ≤ i → i < end → Matches stabs t i → ⊥
IsLast stabs t l end (some m) =
    (l ≤ m) × (m < end) × Matches stabs t m × ((i : ℕ) → m < i → i < end → Matches stabs t i → ⊥)

IsLast-suc :
    (stabs : ℕ → Stab) (t l n n' : ℕ)
    → n' ≡ suc n
    → ((stabs n).n_type == t) ≡ false
    → (found : Option ℕ) → IsLast stabs t l n found
    → IsLast stabs t l n' found
IsLast-suc stabs t l n n' up e none last = λ i low high m. elim (Bool-cases (i == n)) [
  | inl same ↦ false≢true (sym e ∙ subst (Matches stabs t) ((==_iff i n).0 same) m)
  | inr other ↦ last i low (ground arith) m
]
IsLast-suc stabs t l n n' up e (some a) last = (
  last.0,
  omega arith,
  last.2,
  λ i above below m. elim (Bool-cases (i == n)) [
    | inl same ↦ false≢true (sym e ∙ subst (Matches stabs t) ((==_iff i n).0 same) m)
    | inr other ↦ last.3 i above (ground arith) m
  ],
)

pub scan_down-IsLast :
    (stabs : ℕ → Stab) (t l n : ℕ) → IsLast stabs t l (l + n) (scan_down stabs t l n)
unfolding scan_down
scan_down-IsLast stabs t l zero = λ i low high. absurd (omega arith)
scan_down-IsLast stabs t l (suc n) = elim (Bool-cases ((stabs (l + n)).n_type == t)) [
  | inl e ↦ rw e (omega arith, omega arith, e, λ i above below. absurd (omega arith))
  | inr e ↦
      rw e
        (IsLast-suc stabs t l (l + n) (l + suc n) (omega arith) e _ (scan_down-IsLast stabs t l n))
]
