-- ===== src/Format/Halts.antt =====
-- Why a conversion of vprintfmt gives no text.
use lab3a.Base.{
  ◌⊎◌, ℕ, zero, suc, ◌+◌, ◌-◌, ◌%◌, ◌^◌, ◌<◌, ◌≤◌, ◌≡◌, ◌≢◌, inl, inr, refl, Option, none, some,
  Bool, Bool-cases, leb, ◌==◌, ◌||◌, if◌then◌else◌, List, [], ◌∷◌, arith, length,
}
use lab3a.Mmu.{is_negative, neg}
use lab3a.Strings.{Bytes, strlen, strnlen}
use lab3a.Strings.Unended.{no_nul_further, if-none, strlen-none}
use lab3a.Format.Printnum.{count_of, add_front}
use lab3a.Format.Digits.{printnum-Numeral}
use lab3a.Format.Conversions.{
  Spec, Stop, no_argument, bad_error_code, unended, no_digits, Text, shows, halts, shown,
  strnlen_within, laid_out, put_string, put_number, put_signed, put_error, digits_or_stop,
  string_or_stop, error_number, error_text, error_string,
}

-- A conversion halts for want of an argument only where there are not two words of them, at an error code only
-- where it is the smallest `int`, in the loops of %s only where the string has no NUL among its
-- first `limit` bytes, and never in printnum.
abbrev pub HaltsFor : Bytes → ℕ → List ℕ → Stop → Type 0
HaltsFor mem limit args no_argument = length args < 2
HaltsFor mem limit args (bad_error_code w) = w ≡ 2 ^ 31
HaltsFor mem limit args (unended p) = (p ≢ 0) × ((j : ℕ) → j < limit → mem (p + j) ≢ 0)
HaltsFor mem limit args no_digits = ⊥

abbrev pub ShowsOrHalts : Bytes → ℕ → List ℕ → Text → Type 0
ShowsOrHalts mem limit args (shows out) = Unit
ShowsOrHalts mem limit args (halts s) = HaltsFor mem limit args s

add_front-none : (c : ℕ) (o : Option (List ℕ)) → add_front c o ≡ none → o ≡ none
add_front-none c none e = refl
add_front-none c (some cs) e = absurd cc

shown-none :
    (fuel : ℕ) (mem : Bytes) (p precision : ℕ) (altflag : Bool)
    → shown fuel mem p precision altflag ≡ none
    → (j : ℕ) → j < fuel
    → mem (p + j) ≢ 0
unfolding shown
shown-none zero mem p precision altflag e = λ j h. absurd (omega arith)
shown-none (suc fuel) mem p precision altflag e =
    let f = if-none (mem p == 0 || precision == 0) [] _ e in
    no_nul_further mem p fuel (ground (arith, f.0))
      (shown-none fuel mem (p + 1) _ altflag (add_front-none _ _ f.1))

laid_out-none :
    (s : Spec) (len : Option ℕ) (out : Option (List ℕ))
    → laid_out s len out ≡ none
    → (len ≡ none) ⊎ (out ≡ none)
laid_out-none s none out e = inl refl
laid_out-none s (some len) none e = inr refl
laid_out-none s (some len) (some out) e = absurd cc

strnlen_within-none :
    (fuel : ℕ) (mem : Bytes) (p precision : ℕ)
    → strnlen_within fuel mem p precision ≡ none
    → strlen fuel mem p ≡ none
strnlen_within-none fuel mem p precision e = elim (Bool-cases (leb fuel precision)) [
  | inl h ↦ rw h at e
  | inr h ↦ absurd (let f : some (strnlen mem p precision) ≡ none = rw h at e in cc)
]

-- The loops of %s end, if the string does within the fuel.
put_string-none :
    (fuel : ℕ) (mem : Bytes) (s : Spec) (p : ℕ)
    → put_string fuel mem s p ≡ none
    → (p ≢ 0) × ((j : ℕ) → j < fuel → mem (p + j) ≢ 0)
unfolding put_string
put_string-none fuel mem s p e =
    let f = if-none (p == 0) _ _ e in
    (
      ground (arith, f.0),
      elim (laid_out-none s (strnlen_within fuel mem p s.precision) _ f.1) [
        | inl g ↦ strlen-none fuel mem p (strnlen_within-none fuel mem p s.precision g)
        | inr g ↦ shown-none fuel mem p s.precision s.altflag g
      ],
    )

module _ (mem : Bytes) (limit : ℕ) (args : List ℕ) where
  abbrev Proper : Text → Type 0
  Proper t = ShowsOrHalts mem limit args t

  pub string-Proper : (s : Spec) (p : ℕ) → Proper (string_or_stop p (put_string limit mem s p))
  string-Proper s p = go (put_string limit mem s p) refl
    where
      go : (o : Option (List ℕ)) → put_string limit mem s p ≡ o → Proper (string_or_stop p o)
      go none e = put_string-none limit mem s p e
      go (some out) e = tt

  -- printnum has rounds enough for a number of 64 bits.
  pub number-Proper :
      (s : Spec) (base : ℕ) (front : List ℕ) (num : ℕ)
      → 1 < base
      → base ≤ 16
      → num < 2 ^ 64
      → Proper (digits_or_stop (put_number s base front num))
  number-Proper s base front num big top small =
      let n = printnum-Numeral base s.padc 63 num (count_of s.width) big top small in rw n.1 tt

  pub signed-Proper :
      (s : Spec) (num : ℕ) → num < 2 ^ 64 → Proper (digits_or_stop (put_signed s num))
  unfolding put_signed
  signed-Proper s num small = elim (Bool-cases (leb (2 ^ 63) num)) [
    | inl e ↦ rw e (
        number-Proper s 10 (b'-' ∷ []) ((2 ^ 64 - num) % 2 ^ 64) (omega arith) (omega arith)
          (omega arith))
    | inr e ↦ rw e (number-Proper s 10 [] num (omega arith) (omega arith) small)
  ]

  error_number-Proper : (err : ℕ) → err < 2 ^ 64 → Proper (error_number err)
  error_number-Proper err small =
      let n = printnum-Numeral 10 b' ' 63 err 0 (omega arith) (omega arith) small in rw n.1 tt

  error_text-Proper : (err : ℕ) (o : Option (List ℕ)) → err < 2 ^ 64 → Proper (error_text err o)
  error_text-Proper err none small = error_number-Proper err small
  error_text-Proper err (some out) small = tt

  -- `err` is what %e makes of the word.
  error-cases :
      (w err : ℕ)
      → err ≡ (if is_negative w then neg w else w)
      → w < 2 ^ 32
      → Proper (
          if is_negative err
          then halts (bad_error_code w)
          else if leb 7 err
          then error_number err
          else error_text err (error_string err))
  error-cases w err e word = elim (Bool-cases (is_negative err)) [
    | inl f ↦ rw f (ground arith)
    | inr f ↦ elim (Bool-cases (leb 7 err)) [
      | inl g ↦ rw (f, g) (error_number-Proper err (ground arith))
      | inr g ↦ rw (f, g) (error_text-Proper err (error_string err) (ground arith))
    ]
  ]

  pub error-Proper : (w : ℕ) → w < 2 ^ 32 → Proper (put_error w)
  unfolding put_error
  error-Proper w word = error-cases w _ refl word
