-- ===== src/Format/Padding.antt =====
-- %s of lib/printfmt.c: the characters, cut at the precision and padded to the width.
use lab3a.Format.Printnum.{repeat, count_of}
use lab3a.Base.{
  ℕ, zero, suc, ◌+◌, ◌-◌, ◌^◌, ◌<◌, ◌≤◌, ◌≡◌, inl, inr, refl, ◌∙◌, some, Bool-cases, leb, ◌==◌,
  if◌then◌else◌, List, [], ◌∷◌, arith, ap, length, take, All, false, true, lt→ltb, sym, ◌++◌, ◌≢◌,
  ltb, ltb→le, append-nil,
}
use lab3a.Mmu.{is_negative}
use lab3a.Strings.{Bytes, StringAt}
use lab3a.Strings.Copy.{strlen-StringAt}
use lab3a.Strings.Bounded.{strnlen-StringAt}
use lab3a.Format.Conversions.{shown, sign_char, strnlen_within, Spec, put_string, laid_out}
use lab3a.Format.{repeat, count_of}

-- What a precision leaves of a string: all of it where the precision is negative.
abbrev pub cut : ℕ → List ℕ → List ℕ
cut precision cs = if is_negative precision then cs else take precision cs

abbrev pub IsAscii : ℕ → Type 0
IsAscii c = c < 128

take-long : (cs : List ℕ) (n : ℕ) → length cs ≤ n → take n cs ≡ cs
take-long [] zero h = refl
take-long [] (suc n) h = refl
take-long (c ∷ cs) zero h = absurd (omega arith)
take-long (c ∷ cs) (suc n) h = ap (λ (l : List ℕ). c ∷ l) (take-long cs n (omega arith))

module _ (limit : ℕ) (mem : Bytes) (small : limit < 2 ^ 31) where
  strnlen_within-cut :
      (p : ℕ) (cs : List ℕ) (precision : ℕ)
      → StringAt mem p cs
      → length cs < limit
      → strnlen_within limit mem p precision ≡ some (length (cut precision cs))
  strnlen_within-cut p cs precision t h = elim (Bool-cases (leb limit precision)) [
    | inl e ↦
        rw e (
          strlen-StringAt limit mem p cs h t ∙ ap (λ (l : List ℕ). some (length l)) (sym (whole e)))
    | inr e ↦
        let positive : is_negative precision ≡ false = ground arith in
        rw (e, positive) (ap (λ (n : ℕ). some n) (strnlen-StringAt mem p cs precision t))
  ]
    where
      whole : leb limit precision ≡ true → cut precision cs ≡ cs
      whole e = elim (Bool-cases (is_negative precision)) [
        | inl neg ↦ rw neg refl
        | inr pos ↦ rw pos (take-long cs precision (ground arith))
      ]

cut-nil : (precision : ℕ) → cut precision [] ≡ []
cut-nil precision = elim (Bool-cases (is_negative precision)) [
  | inl e ↦ rw e refl
  | inr e ↦ rw e (take-long-nil precision)
]
  where
    take-long-nil : (n : ℕ) → take {A = ℕ} n [] ≡ []
    take-long-nil zero = refl
    take-long-nil (suc n) = refl

sign_char_ascii : (c : ℕ) → c < 128 → sign_char c ≡ c
sign_char_ascii c h = rw (lt→ltb c 128 h) refl

shown-cut :
    (limit : ℕ) (mem : Bytes) (p : ℕ) (cs : List ℕ) (precision : ℕ)
    → StringAt mem p cs
    → All IsAscii cs
    → length cs < limit
    → shown limit mem p precision false ≡ some (cut precision cs)
unfolding shown
shown-cut zero mem p cs precision t ascii h = absurd (omega arith)
shown-cut (suc limit) mem p [] precision t ascii h = rw (t, cut-nil precision) refl
shown-cut (suc limit) mem p (c ∷ cs) zero t ascii h = rw (t.0, t.1) refl
shown-cut (suc limit) mem p (c ∷ cs) (suc n) t ascii h =
    let nonzero : (suc n == 0) ≡ false = ground arith in
    let step = sign_char_ascii c ascii.0 in
    elim (Bool-cases (is_negative (suc n))) [
      | inl e ↦
          rw
            (
              t.0,
              t.1,
              nonzero,
              step,
              e,
              shown-cut limit mem (p + 1) cs (suc n) t.2 ascii.1 (omega arith),
              e,
            )
            refl
      | inr e ↦
          let before : suc n - 1 ≡ n = omega arith in
          let pos : is_negative n ≡ false = ground arith in
          rw
            (
              t.0,
              t.1,
              nonzero,
              step,
              e,
              before,
              shown-cut limit mem (p + 1) cs n t.2 ascii.1 (omega arith),
              pos,
            )
            refl
    ]

-- The text in its field: behind the pad characters, or in front of spaces where the flag '-' was given.
abbrev pub aligned : Spec → List ℕ → List ℕ
aligned s text =
    if s.padc == b'-'
    then text ++ repeat b' ' (count_of s.width - length text)
    else repeat s.padc (count_of s.width - length text) ++ text

laid_out-aligned :
    (s : Spec) (text : List ℕ) → laid_out s (some (length text)) (some text) ≡ some (aligned s text)
laid_out-aligned s text = elim (Bool-cases (s.padc == b'-')) [
  | inl e ↦ elim (Bool-cases (ltb 0 (count_of s.width))) [
    | inl f ↦ rw (e, f) refl
    | inr f ↦ rw (e, f) refl
  ]
  | inr e ↦ elim (Bool-cases (ltb 0 (count_of s.width))) [
    | inl f ↦ rw (e, f, append-nil text) refl
    | inr f ↦
        let none_wide : count_of s.width ≡ 0 = ltb→zero f in
        let left : 0 - length text ≡ 0 = omega arith in
        rw (e, f, none_wide, left, append-nil text) refl
  ]
]
  where
    ltb→zero : ltb 0 (count_of s.width) ≡ false → count_of s.width ≡ 0
    ltb→zero f = let le = ltb→le 0 (count_of s.width) f in omega arith

-- For a string of ASCII characters at an address that is not NULL, no altflag, and fuel beyond the string's
-- length, below 2 ^ 31: %s prints the string, cut at a precision that is not negative, behind as many pad
-- characters as the width asks for, or in front of as many spaces where the flag '-' was given. So
-- padding and a width are not for the numeric formats alone.
pub put_string-aligned :
    (limit : ℕ) (mem : Bytes) (s : Spec) (p : ℕ) (cs : List ℕ)
    → limit < 2 ^ 31
    → p ≢ 0
    → StringAt mem p cs
    → All IsAscii cs
    → length cs < limit
    → s.altflag ≡ false
    → put_string limit mem s p ≡ some (aligned s (cut s.precision cs))
unfolding put_string
put_string-aligned limit mem s p cs small ne t ascii h alt =
    let given : (p == 0) ≡ false = ground arith in
    rw
      (
        given,
        alt,
        strnlen_within-cut limit mem small p cs s.precision t h,
        shown-cut limit mem p cs s.precision t ascii h,
      )
      (laid_out-aligned s (cut s.precision cs))
