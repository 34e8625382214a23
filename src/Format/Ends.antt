-- ===== src/Format/Ends.antt =====
-- vprintfmt terminates on every format that a NUL ends, whatever stands in it.
use lab3a.Format.Run.{stopped, run, unfinished, Output, prefix, printed, follow, vprintfmt}
use lab3a.Base.{
  ap, ℕ, zero, suc, ◌+◌, ◌-◌, ◌*◌, ◌<◌, ◌≤◌, ◌≡◌, ◌≢◌, ◌==◌, List, [], ◌∷◌, Bool-cases, inl, inr,
  arith, ==_iff, ◌∙◌, All, length, ◌^◌,
}
use lab3a.Strings.{Bytes}
use lab3a.Format.Measure.{steps, Within, Falls, either}
use lab3a.Format.Directive.{digits, step_spec-Falls}
use lab3a.Format.Halts.{HaltsFor}
use lab3a.Format.Arguments.{IsWord, untouched}
use lab3a.Format.Conversions.{
  Stop, no_argument, bad_error_code, unended, no_digits, is_digit, add_digit, fresh,
}
use lab3a.Format.{Mode, in_text, in_spec, in_digits, Next, finished, go_on, stuck, step}

module _ (mem : Bytes) (end : ℕ) (nul : mem end ≡ 0) where
  text_before : (fmt : ℕ) → fmt ≤ end → mem fmt ≢ 0 → fmt < end
  text_before fmt h ne = elim (Bool-cases (fmt == end)) [
    | inl same ↦ absurd (ne (ap mem ((==_iff fmt end).0 same) ∙ nul))
    | inr other ↦ ground arith
  ]

  steps_next :
      (fmt : ℕ) → fmt < end → steps (end - fmt) ≡ steps (end - suc fmt) + (2 * (end - suc fmt) + 4)
  steps_next fmt h = ap steps same
    where
      same : end - fmt ≡ suc (end - suc fmt)
      same = omega arith

  module _ (limit : ℕ) (args : List ℕ) where
    text-Falls :
        (fmt c : ℕ)
        → fmt ≤ end
        → steps (end - fmt) ≤ c
        → mem fmt ≢ 0
        → Falls mem end nul limit args c (go_on (mem fmt ∷ []) in_text (fmt + 1) args)
    text-Falls fmt c h enough ne =
        let less = text_before fmt h ne in
        let next = steps_next fmt less in
        let same : fmt + 1 ≡ suc fmt = omega arith in
        (steps (end - suc fmt), omega arith, (omega arith, (rw same (omega arith))), untouched args)

    percent-Falls :
        (fmt c : ℕ)
        → fmt ≤ end
        → steps (end - fmt) ≤ c
        → mem fmt ≡ b'%'
        → Falls mem end nul limit args c (go_on [] (in_spec fresh) (fmt + 1) args)
    percent-Falls fmt c h enough e =
        let less = text_before fmt h (λ z. omega arith) in
        let next = steps_next fmt less in
        (
          steps (end - suc fmt) + (2 * (end - (fmt + 1)) + 3),
          omega arith,
          (
            fmt,
            record {
              percent = e;
              behind = omega arith;
              before = omega arith;
              clear = λ i low high. absurd (omega arith);
            },
            omega arith,
          ),
          untouched args,
        )

    step-Falls :
        (m : Mode) (fmt c : ℕ)
        → All IsWord args
        → Within mem end nul m fmt c
        → Falls mem end nul limit args c (step limit mem m fmt args)
    unfolding step
    step-Falls in_text fmt c words (h, enough) =
        either mem end nul limit args c (mem fmt == b'%') _ _
          (λ e. percent-Falls fmt c h enough ((==_iff (mem fmt) b'%').0 e))
          λ ne.
            either mem end nul limit args c (mem fmt == 0) _ _ (λ e. tt)
              λ nz. text-Falls fmt c h enough (ground arith)
    step-Falls (in_spec s) fmt c words (st, here, enough) =
        step_spec-Falls mem end nul limit args words st fmt c here enough s
    step-Falls (in_digits s) fmt c words (st, here, enough) =
        either mem end nul limit args c (is_digit (mem fmt)) _ _
          (λ e.
            digits mem end nul limit args words st fmt c here (omega arith) (add_digit s (mem fmt))
              args (untouched args) (ground arith) (ground arith))
          λ e. (
            steps (end - suc st) + (2 * (end - fmt) + 3),
            omega arith,
            (st, here, omega arith),
            untouched args,
          )

-- How a run ends: with all of its text, or at a conversion that has a reason, where `room` words of the
-- arguments are enough. It does not run out of steps.
abbrev pub EndsWell : Bytes → ℕ → List ℕ → ℕ → Output → Type 0
EndsWell mem limit args room (printed cs) = Unit
EndsWell mem limit args room (stopped no_argument) = length args < room
EndsWell mem limit args room (stopped (bad_error_code w)) = w ≡ 2 ^ 31
EndsWell mem limit args room (stopped (unended p)) =
    (p ≢ 0) × ((j : ℕ) → j < limit → mem (p + j) ≢ 0)
EndsWell mem limit args room (stopped no_digits) = ⊥
EndsWell mem limit args room unfinished = ⊥

module _ (mem : Bytes) (end : ℕ) (nul : mem end ≡ 0) (limit : ℕ) where
  -- A step in front: two words more.
  prefix-EndsWell :
      (out args ap : List ℕ) (c d : ℕ) (o : Output)
      → d < c
      → length args ≤ length ap + 2
      → EndsWell mem limit ap (2 * d + 2) o
      → EndsWell mem limit args (2 * c + 2) (prefix out o)
  prefix-EndsWell out args ap c d (printed cs) less rest e = tt
  prefix-EndsWell out args ap c d (stopped no_argument) less rest e = omega arith
  prefix-EndsWell out args ap c d (stopped (bad_error_code w)) less rest e = e
  prefix-EndsWell out args ap c d (stopped (unended p)) less rest e = e
  prefix-EndsWell out args ap c d (stopped no_digits) less rest e = e
  prefix-EndsWell out args ap c d unfinished less rest e = e

  stuck-EndsWell :
      (args : List ℕ) (c : ℕ) (s : Stop)
      → HaltsFor mem limit args s
      → EndsWell mem limit args (2 * c + 2) (stopped s)
  stuck-EndsWell args c no_argument e = omega arith
  stuck-EndsWell args c (bad_error_code w) e = e
  stuck-EndsWell args c (unended p) e = e
  stuck-EndsWell args c no_digits e = e

  follow-EndsWell :
      (rest : Mode → ℕ → List ℕ → Output) (args : List ℕ) (c : ℕ)
      → All IsWord args
      → ((m : Mode) (fmt d : ℕ) (ap : List ℕ)
          → All IsWord ap
          → Within mem end nul m fmt d
          → d < c
          → EndsWell mem limit ap (2 * d + 2) (rest m fmt ap))
      → (next : Next) → Falls mem end nul limit args c next
      → EndsWell mem limit args (2 * c + 2) (follow rest next)
  follow-EndsWell rest args c words ih finished f = tt
  follow-EndsWell rest args c words ih (stuck s) f = stuck-EndsWell args c s f
  follow-EndsWell rest args c words ih (go_on out m fmt ap) (d, less, w, (left, still)) =
      prefix-EndsWell out args ap c d (rest m fmt ap) less left (ih m fmt d ap (still words) w less)

  run-EndsWell :
      (fuel : ℕ) (m : Mode) (fmt c : ℕ) (args : List ℕ)
      → All IsWord args
      → Within mem end nul m fmt c
      → c < fuel
      → EndsWell mem limit args (2 * c + 2) (run fuel limit mem m fmt args)
  unfolding run
  run-EndsWell zero m fmt c args words w h = absurd (omega arith)
  run-EndsWell (suc fuel) m fmt c args words w h =
      follow-EndsWell (run fuel limit mem) args c words
        (λ m' fmt' d ap still w' less. run-EndsWell fuel m' fmt' d ap still w' (omega arith))
        (step limit mem m fmt args) (step-Falls mem end nul limit args m fmt c words w)

-- vprintfmt terminates: on a format with a NUL n places behind its start, and with any words as arguments, it
-- takes at most steps n + 1 steps, whatever directives the format holds, unknown ones included, and its loops
-- over numbers end. It ends with a text, or at a conversion: at a %s whose address is not NULL and whose
-- string has no NUL among its first `limit` bytes; at a %e with the smallest `int`; or for want of an
-- argument, but not when there are 2 * steps n + 2 words of them.
pub vprintfmt_ends :
    (limit : ℕ) (mem : Bytes) (fmt n : ℕ) (args : List ℕ)
    → mem (fmt + n) ≡ 0
    → All IsWord args
    → EndsWell mem limit args (2 * steps n + 2) (vprintfmt (steps n + 1) limit mem fmt args)
unfolding vprintfmt
vprintfmt_ends limit mem fmt n args nul words =
    let same : fmt + n - fmt ≡ n = omega arith in
    run-EndsWell mem (fmt + n) nul limit (steps n + 1) in_text fmt (steps n) args words
      (omega arith, rw same (omega arith)) (omega arith)
