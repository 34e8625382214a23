-- ===== src/Format/Measure.antt =====
-- How far vprintfmt is from its end, in a mode and at a place of its format.
use lab3a.Base.{
  refl, ap, ℕ, zero, suc, ◌+◌, ◌-◌, ◌*◌, ◌<◌, ◌≤◌, ◌≡◌, Option, none, some, Bool, true, false, ◌==◌,
  if◌then◌else◌, List, Bool-cases, inl, inr, arith, ==_iff, subst, sym,
}
use lab3a.Strings.{Bytes}
use lab3a.Format.Halts.{HaltsFor, ShowsOrHalts}
use lab3a.Format.Arguments.{Rest, Read}
use lab3a.Format.Conversions.{Text, shows, halts}
use lab3a.Format.{
  Mode, in_text, in_spec, in_digits, Next, finished, go_on, stuck, convert, with_num,
  back_to_percent,
}

-- The steps that the text with n characters before its NUL takes at most.
abbrev pub steps : ℕ → ℕ
steps zero = 1
steps (suc n) = steps n + (2 * n + 4)

pub steps_mono : (m n : ℕ) → m ≤ n → steps m ≤ steps n
steps_mono m zero h = let e : m ≡ 0 = omega arith in rw e (omega arith)
steps_mono m (suc n) h = elim (Bool-cases (m == suc n)) [
  | inl e ↦ rw ((==_iff m (suc n)).0 e) (omega arith)
  | inr e ↦ omega (arith, steps_mono m n (ground arith))
]

pub back_to_percent_lem :
    (mem : Bytes) (st fmt : ℕ)
    → mem st ≡ b'%'
    → st < fmt
    → ((i : ℕ) → st < i → i < fmt → (mem i == b'%') ≡ false)
    → back_to_percent mem fmt ≡ suc st
unfolding back_to_percent
back_to_percent_lem mem st zero percent h clear = absurd (omega arith)
back_to_percent_lem mem st (suc fmt) percent h clear = elim (Bool-cases (st == fmt)) [
  | inl e ↦
      let here : (mem fmt == b'%') ≡ true =
        subst (λ (i : ℕ). (mem i == b'%') ≡ true) ((==_iff st fmt).0 e) (rw percent refl) in
      rw here (ap (λ (i : ℕ). suc i) (sym ((==_iff st fmt).0 e)))
  | inr e ↦
      let further : st < fmt = ground arith in
      rw (clear fmt further (omega arith))
        (back_to_percent_lem mem st fmt percent further (λ i low high. clear i low (omega arith)))
]

module _ (mem : Bytes) (end : ℕ) (nul : mem end ≡ 0) where
  -- The directive that starts behind the '%' at `st` has come to `fmt`.
  pub record In (st fmt : ℕ) : Type 0 where
    pub percent : mem st ≡ b'%'
    pub behind : st < fmt
    pub before : fmt ≤ end
    pub clear : (i : ℕ) → st < i → i < fmt → (mem i == b'%') ≡ false

  -- The steps that a mode has at most.
  abbrev pub Within : Mode → ℕ → ℕ → Type 0
  Within in_text fmt c = (fmt ≤ end) × (steps (end - fmt) ≤ c)
  Within (in_spec s) fmt c =
      (st : ℕ) × In st fmt × (steps (end - suc st) + (2 * (end - fmt) + 3) ≤ c)
  Within (in_digits s) fmt c =
      (st : ℕ) × In st fmt × (steps (end - suc st) + (2 * (end - fmt) + 4) ≤ c)

-- What a step does: it ends the run, comes nearer to the end and takes two words of the arguments at most,
-- or halts for a reason.
module _ (mem : Bytes) (end : ℕ) (nul : mem end ≡ 0) (limit : ℕ) (args : List ℕ) where
  abbrev pub Falls : ℕ → Next → Type 0
  Falls c finished = Unit
  Falls c (go_on out m fmt ap) = (d : ℕ) × (d < c) × Within mem end nul m fmt d × Rest args ap
  Falls c (stuck s) = HaltsFor mem limit args s

  pub either :
      (c : ℕ) (b : Bool) (x y : Next)
      → (b ≡ true → Falls c x)
      → (b ≡ false → Falls c y)
      → Falls c (if b then x else y)
  either c true x y f g = f refl
  either c false x y f g = g refl

  convert-Falls :
      (c fmt : ℕ) (ap : List ℕ) (t : Text)
      → fmt ≤ end
      → steps (end - fmt) < c
      → Rest args ap
      → ShowsOrHalts mem limit args t
      → Falls c (convert fmt ap t)
  convert-Falls c fmt ap (halts s) h less rest proper = proper
  convert-Falls c fmt ap (shows out) h less rest proper =
      (steps (end - fmt), less, (h, omega arith), rest)

  pub with_num-Falls :
      (c fmt : ℕ) (print : ℕ → Text) (P : ℕ → Type 0) (o : Option (ℕ × List ℕ))
      → fmt ≤ end
      → steps (end - fmt) < c
      → Read args P o
      → ((num : ℕ) → P num → ShowsOrHalts mem limit args (print num))
      → Falls c (with_num print fmt o)
  with_num-Falls c fmt print P none h less read proper = read
  with_num-Falls c fmt print P (some (num, ap)) h less (rest, p) proper =
      convert-Falls c fmt ap (print num) h less rest (proper num p)
