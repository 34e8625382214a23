-- ===== src/Format/Digits.antt =====
-- What printnum prints: the digits of the number, behind the padding.
use lab3a.Base.{
  ℕ, zero, suc, ◌+◌, ◌-◌, ◌*◌, ◌/◌, ◌%◌, ◌^◌, ◌<◌, ◌≤◌, ◌≡◌, inl, inr, refl, some, Bool-cases,
  arith, leb, List, [], ◌∷◌, ◌++◌, length, length-append, map, All, ap, false, ◌∙◌, append_assoc,
  true, ltb, lt→ltb,
}
use native.Mathlib.Nat.{
  div-add-mod', mod-lt, le-div_iff_mul-le, div-lt_iff_lt-mul, mul-le-mul_left, mod-eq_of_lt,
}
use lab3a.Format.Printnum.{printnum, repeat, digit}

-- The number that digits spell, the most significant one first, behind the value `n`.
abbrev pub value : ℕ → ℕ → List ℕ → ℕ
value base n [] = n
value base n (d ∷ ds) = value base (n * base + d) ds

abbrev pub IsBelow : ℕ → ℕ → Type 0
IsBelow base d = d < base

-- There is a first digit, and it is not 0.
abbrev pub Leads : List ℕ → Type 0
Leads [] = ⊥
Leads (d ∷ ds) = 0 < d

-- The text is that of `num` in the base, padded to the width.
pub record Numeral (num base width padc : ℕ) (out : List ℕ) : Type 0 where
  pub digits : List ℕ
  pub spells : value base 0 digits ≡ num
  pub below : All (IsBelow base) digits
  pub leads : 0 < num → Leads digits
  pub nought : num ≡ 0 → digits ≡ 0 ∷ []
  pub layout : out ≡ repeat padc (width - length digits) ++ map digit digits

value-snoc :
    (base n : ℕ) (ds : List ℕ) (d : ℕ) → value base n (ds ++ (d ∷ [])) ≡ value base n ds * base + d
value-snoc base n [] d = refl
value-snoc base n (e ∷ ds) d = value-snoc base (n * base + e) ds d

All-snoc :
    (base : ℕ) (ds : List ℕ) (d : ℕ)
    → All (IsBelow base) ds
    → d < base
    → All (IsBelow base) (ds ++ (d ∷ []))
All-snoc base [] d h less = (less, tt)
All-snoc base (e ∷ ds) d h less = (h.0, All-snoc base ds d h.1 less)

Leads-snoc : (ds : List ℕ) (d : ℕ) → Leads ds → Leads (ds ++ (d ∷ []))
Leads-snoc [] d h = absurd h
Leads-snoc (e ∷ ds) d h = h

map-snoc : (ds : List ℕ) (d : ℕ) → map digit (ds ++ (d ∷ [])) ≡ map digit ds ++ (digit d ∷ [])
map-snoc [] d = refl
map-snoc (e ∷ ds) d = ap (λ (l : List ℕ). digit e ∷ l) (map-snoc ds d)

module _ (base padc : ℕ) where
  -- printnum's digits are in its literal.
  in_literal : (num : ℕ) → 1 < base → base ≤ 16 → ltb (num % base) 16 ≡ true
  in_literal num big small =
      let h : num % base < base = mod-lt num (omega arith) in lt→ltb (num % base) 16 (omega arith)

  -- One digit more, and one place less for the padding.
  Numeral-snoc :
      (num width : ℕ) (out : List ℕ)
      → base ≤ num
      → 1 < base
      → Numeral (num / base) base (width - 1) padc out
      → Numeral num base width padc (out ++ (digit (num % base) ∷ []))
  Numeral-snoc num width out h big n = record {
    digits = n.digits ++ (num % base ∷ []);
    spells = value-snoc base 0 n.digits (num % base) ∙ (rw (n.spells) (div-add-mod' num base));
    below = All-snoc base n.digits (num % base) n.below (mod-lt num (omega arith));
    leads = λ _.
        Leads-snoc n.digits (num % base)
          (n.leads ((le-div_iff_mul-le (omega arith)).1 (omega arith)));
    nought = λ z. absurd (omega arith);
    layout =
        ap (λ (l : List ℕ). l ++ (digit (num % base) ∷ [])) n.layout
        ∙ append_assoc (repeat padc (width - 1 - length n.digits)) (map digit n.digits)
            (digit (num % base) ∷ [])
        ∙ rw (map-snoc n.digits (num % base), length-append n.digits (num % base ∷ []))
            (ap (λ (w : ℕ). repeat padc w ++ (map digit n.digits ++ (digit (num % base) ∷ [])))
              (omega arith));
  }

  Numeral_digit :
      (num width : ℕ)
      → num < base
      → 1 < base
      → Numeral num base width padc (repeat padc (width - 1) ++ (digit (num % base) ∷ []))
  Numeral_digit num width h big = record {
    digits = num % base ∷ [];
    spells = let e = mod-eq_of_lt h in omega arith;
    below = (mod-lt num (omega arith), tt);
    leads = λ pos. rw (mod-eq_of_lt h) pos;
    nought = λ z. ap (λ (d : ℕ). d ∷ []) (mod-eq_of_lt h ∙ z);
    layout = refl;
  }

  halved : (fuel num : ℕ) → 1 < base → num < 2 ^ suc fuel → num / base < 2 ^ fuel
  halved fuel num big small =
      (div-lt_iff_lt-mul {k = base} {x = num} {y = 2 ^ fuel} (omega arith)).1
        (let scaled = mul-le-mul_left (2 ^ fuel) big in omega arith)

  -- For a base from 2 to 16 and a number below 2 ^ (fuel + 1): printnum ends within fuel + 1 rounds and prints the
  -- digits of the number in the base, the first one not 0 but for the number 0, behind as many pad
  -- characters as the width asks for.
  pub printnum-Numeral :
      (fuel num width : ℕ)
      → 1 < base
      → base ≤ 16
      → num < 2 ^ suc fuel
      → (out : List ℕ) × (printnum (suc fuel) num base width padc ≡ some out)
        × Numeral num base width padc out
  unfolding printnum
  printnum-Numeral zero num width big top small = (
    repeat padc (width - 1) ++ (digit (num % base) ∷ []),
    rw (last, in_literal num big top) refl,
    Numeral_digit num width (omega arith) big,
  )
    where
      last : leb base num ≡ false
      last = ground arith
  printnum-Numeral (suc fuel) num width big top small = elim (Bool-cases (leb base num)) [
    | inl more ↦
        let ih =
          printnum-Numeral fuel (num / base) (width - 1) big top
            (halved (suc fuel) num big small) in
        (
          ih.0 ++ (digit (num % base) ∷ []),
          rw (more, ih.1, in_literal num big top) refl,
          Numeral-snoc num width ih.0 (leb→le more) big ih.2,
        )
    | inr last ↦ (
      repeat padc (width - 1) ++ (digit (num % base) ∷ []),
      rw (last, in_literal num big top) refl,
      Numeral_digit num width (leb→lt last) big,
    )
  ]
    where
      leb→le : leb base num ≡ true → base ≤ num
      leb→le e = ground arith

      leb→lt : leb base num ≡ false → num < base
      leb→lt e = ground arith
