-- ===== src/Format/RoundTrip.antt =====
-- strtol of lib/string.c reads back what %d of lib/printfmt.c prints.
use lab3a.Base.{
  ℕ, zero, suc, ◌+◌, ◌-◌, ◌*◌, ◌%◌, ◌^◌, ◌<◌, ◌≤◌, ◌≡◌, inl, inr, refl, ◌∙◌, ap, subst, some, ◌==◌,
  List, [], ◌∷◌, ◌++◌, length, All, map, arith, true, false, leb, Bool, ◌&&◌, ◌||◌, ◌⊎◌, lt→ltb,
}
use lab3a.Mmu.{u32}
use lab3a.Strings.{Bytes, StringAt}
use lab3a.Strings.Strtol.{
  strtol, skip_blanks, read_digits, digit_of, unsigned, base_prefix, negated,
}
use lab3a.Format.Printnum.{digit, repeat}
use lab3a.Format.Digits.{value, IsBelow, Numeral}
use lab3a.Format.Signed.{IsDecimal}

digit_of-digit : (d : ℕ) → d < 10 → digit_of (digit d) ≡ some d
digit_of-digit d h = rw (lt→ltb d 10 h) (numeral (b'0' + d) d refl h)
  where
    numeral : (c d : ℕ) → c ≡ b'0' + d → d < 10 → digit_of c ≡ some d
    numeral c d e h =
        let range : (leb b'0' c && leb c b'9') ≡ true = ground arith in
        let same : c - b'0' ≡ d = omega arith in rw (range, same) refl

value-u32 : (n m : ℕ) (ds : List ℕ) → u32 n ≡ u32 m → u32 (value 10 n ds) ≡ u32 (value 10 m ds)
value-u32 n m [] e = e
value-u32 n m (d ∷ ds) e = value-u32 (n * 10 + d) (m * 10 + d) ds (omega arith)

read_digits-value :
    (fuel : ℕ) (mem : Bytes) (s val : ℕ) (ds : List ℕ)
    → StringAt mem s (map digit ds)
    → All (IsBelow 10) ds
    → length ds < fuel
    → val < 2 ^ 32
    → read_digits fuel mem s 10 val ≡ some (u32 (value 10 val ds), s + length ds)
unfolding read_digits
read_digits-value zero mem s val ds t below h small = absurd (omega arith)
read_digits-value (suc fuel) mem s val [] t below h small = rw t (
    ap (λ (p : ℕ × ℕ). some p)
      (let z : s + 0 ≡ s = omega arith in
        let small_val : val % 2 ^ 32 ≡ val = omega arith in rw (z, small_val) refl))
read_digits-value (suc fuel) mem s val (d ∷ ds) t below h small =
    let over : leb 10 d ≡ false = ground (arith, below.0) in
    let place : s + 1 + length ds ≡ s + suc (length ds) = omega arith in
    rw (t.0, digit_of-digit d below.0, over)
      (read_digits-value fuel mem (s + 1) (u32 (val * 10 + d)) ds t.2 below.1 (omega arith)
          (omega arith)
        ∙ rw (place, value-u32 (u32 (val * 10 + d)) (val * 10 + d) ds (omega arith)) refl)

-- A character that is a digit, or the text's end.
abbrev IsPlain : ℕ → Type 0
IsPlain c = (c ≡ 0) ⊎ ((b'0' ≤ c) × (c ≤ b'9'))

first-IsPlain :
    (mem : Bytes) (s : ℕ) (ds : List ℕ)
    → StringAt mem s (map digit ds)
    → All (IsBelow 10) ds
    → IsPlain (mem s)
first-IsPlain mem s [] t below = inl t
first-IsPlain mem s (d ∷ ds) t below = inr (range (mem s) t.0)
  where
    range : (c : ℕ) → c ≡ digit d → (b'0' ≤ c) × (c ≤ b'9')
    range c e = let small = below.0 in ground arith

module _ (fuel : ℕ) (mem : Bytes) where
  skip_blanks-stays :
      (s : ℕ)
      → ((mem s == b' ') || (mem s == b'\t')) ≡ false
      → skip_blanks (suc fuel) mem s ≡ some s
  unfolding skip_blanks
  skip_blanks-stays s h = rw h refl

  unsigned-value :
      (neg : Bool) (start s : ℕ) (ds : List ℕ)
      → StringAt mem s (map digit ds)
      → All (IsBelow 10) ds
      → length ds < suc fuel
      → unsigned (suc fuel) mem neg start (base_prefix mem s 10)
        ≡ negated neg (some (u32 (value 10 0 ds), s + length ds))
  unsigned-value neg start s ds t below h =
      ap (negated neg) (read_digits-value (suc fuel) mem s 0 ds t below h (omega arith))

  strtol-plain :
      (s : ℕ) (ds : List ℕ)
      → StringAt mem s (map digit ds)
      → All (IsBelow 10) ds
      → length ds < suc fuel
      → strtol (suc fuel) mem s 10 ≡ some (u32 (value 10 0 ds), s + length ds)
  unfolding strtol
  strtol-plain s ds t below h =
      let plain = first-IsPlain mem s ds t below in
      let no_blank : ((mem s == b' ') || (mem s == b'\t')) ≡ false = ground arith in
      let no_plus : (mem s == b'+') ≡ false = ground arith in
      let no_minus : (mem s == b'-') ≡ false = ground arith in
      rw (skip_blanks-stays s no_blank, no_plus, no_minus) (unsigned-value false s s ds t below h)

  strtol-minus :
      (s : ℕ) (ds : List ℕ)
      → mem s ≡ b'-'
      → StringAt mem (s + 1) (map digit ds)
      → All (IsBelow 10) ds
      → length ds < suc fuel
      → strtol (suc fuel) mem s 10 ≡ some (u32 (2 ^ 32 - u32 (value 10 0 ds)), s + 1 + length ds)
  unfolding strtol
  strtol-minus s ds minus t below h =
      let no_blank : ((mem s == b' ') || (mem s == b'\t')) ≡ false = rw minus refl in
      rw (skip_blanks-stays s no_blank, minus) (unsigned-value true s (s + 1) ds t below h)

layout_plain :
    (num padc : ℕ) (out : List ℕ) (n : Numeral num 10 0 padc out) → out ≡ map digit n.digits
layout_plain num padc out n =
    n.layout
    ∙ (let z : 0 - length n.digits ≡ 0 = omega arith in
        ap (λ (k : ℕ). repeat padc k ++ map digit n.digits) z)

length-map : (ds : List ℕ) → length (map digit ds) ≡ length ds
length-map [] = refl
length-map (d ∷ ds) = ap (λ (n : ℕ). suc n) (length-map ds)

-- The round trip of numbers: where the text that %d prints of an `int` w, without a width, stands in memory as a
-- string, strtol in base 10 returns w again, for every w, and leaves its end pointer at the end of
-- the string.
pub strtol-IsDecimal :
    (fuel : ℕ) (mem : Bytes) (s w padc : ℕ) (out : List ℕ)
    → w < 2 ^ 32
    → IsDecimal w 0 padc out
    → StringAt mem s out
    → length out < fuel
    → strtol fuel mem s 10 ≡ some (w, s + length out)
strtol-IsDecimal zero mem s w padc out small dec t h = absurd (omega arith)
strtol-IsDecimal (suc fuel) mem s w padc out small (inl (pos, n)) t h =
    let e = layout_plain w padc out n in
    let len = length-map n.digits in
    let size : length out ≡ length n.digits = ap length e ∙ len in
    let same : u32 (value 10 0 n.digits) ≡ w = omega (arith, n.spells) in
    strtol-plain fuel mem s n.digits (subst (StringAt mem s) e t) n.below (omega arith)
    ∙ rw (same, size) refl
strtol-IsDecimal (suc fuel) mem s w padc out small (inr (neg, (ds, e, n))) t h =
    let plain = layout_plain (2 ^ 32 - w) padc ds n in
    let t' = subst (StringAt mem s) (e ∙ ap (λ (l : List ℕ). b'-' ∷ l) plain) t in
    let len = length-map n.digits in
    let size : length out ≡ suc (length n.digits) =
      ap length (e ∙ ap (λ (l : List ℕ). b'-' ∷ l) plain) ∙ ap (λ (k : ℕ). suc k) len in
    let positive : 0 < w = ground arith in
    let same : u32 (2 ^ 32 - u32 (value 10 0 n.digits)) ≡ w = omega (arith, n.spells) in
    let place : s + 1 + length n.digits ≡ s + suc (length n.digits) = omega arith in
    strtol-minus fuel mem s n.digits t'.0 t'.2 n.below (omega arith) ∙ rw (same, size, place) refl
