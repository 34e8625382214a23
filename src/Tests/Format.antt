-- ===== src/Tests/Format.antt =====
-- Formatted output on concrete formats, numbers and strings.
use lab3a.Format.Batches.{concat, user_vcprintf, low, IsBatch, user_vcprintf_lem}
use lab3a.Base.{
  ℕ, ◌+◌, ◌≡◌, refl, some, arith, ◌==◌, if◌then◌else◌, List, [], ◌∷◌, take, length, inl, map, All,
  ◌*◌,
}
use lab3a.Mmu.{u32, neg}
use lab3a.Strings.{Bytes}
use lab3a.Strings.Strtol.{strtol}
use lab3a.Strings.Memory.{memmove}
use lab3a.Strings.Moves.{moved, memmove-moved}
use lab3a.Format.Conversions.{no_argument, Spec, fresh, put_string, put_signed}
use lab3a.Format.{step, step_spec, back_to_percent}
use lab3a.Format.Printnum.{printnum, chars}
use lab3a.Format.Digits.{Numeral, printnum-Numeral}
use lab3a.Format.Run.{run, vprintfmt, vsnprintf, printed, stopped}
use lab3a.Format.Measure.{steps}
use lab3a.Format.Ends.{EndsWell, vprintfmt_ends}
use lab3a.Format.Buffer.{Stored, vsnprintf-Stored}
use lab3a.Format.Signed.{IsDecimal, vprintfmt-IsDecimal}
use lab3a.Format.Padding.{aligned, cut, put_string-aligned}
use lab3a.Format.RoundTrip.{strtol-IsDecimal}

-- The characters of a list, from 100 on, and NULs.
abbrev placed : List ℕ → ℕ → Bytes
placed [] p q = 0
placed (c ∷ cs) p q = if q == p then c else placed cs (p + 1) q

abbrev Shows : List ℕ → List ℕ → List ℕ → Type 0
Shows fmt args out = vprintfmt 200 20 (placed fmt 100) 100 args ≡ printed out

hex_padded : Shows (chars "<%08x>") (0xbeef ∷ []) (chars "<0000beef>")
unfolding vprintfmt run step step_spec printnum put_signed back_to_percent
hex_padded = refl

-- The sign stands in front of the padding, and the flag '-' pads a number on the left with '-'.
negative_shown : Shows (chars "%5d|%-3d|") (neg 42 ∷ 7 ∷ []) (chars "-   42|--7|")
unfolding vprintfmt run step step_spec printnum put_signed back_to_percent
negative_shown = refl

unknown_shown : Shows (chars "%5q %%") [] (chars "%5q %")
unfolding vprintfmt run step step_spec printnum put_signed back_to_percent
unknown_shown = refl

-- %o prints no number.
octal_shown : Shows (chars "%o octal") (6828 ∷ []) (chars "XXX octal")
unfolding vprintfmt run step step_spec printnum put_signed back_to_percent
octal_shown = refl

printnum-Numeral_example :
    (out : List ℕ) × (printnum 33 0xbeef 16 8 48 ≡ some out) × Numeral 0xbeef 16 8 48 out
printnum-Numeral_example =
    printnum-Numeral 16 48 32 0xbeef 8 (omega arith) (omega arith) (omega arith)

-- %s prints the format itself, and %q is unknown.
abbrev shows_itself : Bytes
shows_itself = placed (chars "%s %5q") 100

vprintfmt_ends_example :
    EndsWell shows_itself 20
      (100 ∷ [])
      (2 * steps 6 + 2)
      (vprintfmt (steps 6 + 1) 20 shows_itself 100 (100 ∷ []))
vprintfmt_ends_example = vprintfmt_ends 20 shows_itself 100 6 (100 ∷ []) refl (omega arith, tt)

-- %d without an argument.
too_few_shown : vprintfmt 9 20 (placed (chars "%d") 100) 100 [] ≡ stopped no_argument
unfolding vprintfmt run step step_spec
too_few_shown = refl

vsnprintf-Stored_example :
    Stored (λ q. 9) 50 (take 3 (chars "hello")) (vsnprintf (λ q. 9) 50 4 (chars "hello")).0
    × ((vsnprintf (λ q. 9) 50 4 (chars "hello")).1 ≡ u32 (length (chars "hello")))
vsnprintf-Stored_example =
    vsnprintf-Stored (λ q. 9) 50 3 (chars "hello") (λ e. omega arith) (omega arith)

vprintfmt-IsDecimal_example :
    (out : List ℕ) × (vprintfmt 3 20 (placed (chars "%d") 100) 100 (neg 42 ∷ []) ≡ printed out)
    × IsDecimal (neg 42) 0 32 out
vprintfmt-IsDecimal_example =
    vprintfmt-IsDecimal 0 20 (placed (chars "%d") 100) 100 (neg 42) [] refl refl refl (omega arith)

abbrev wide : Spec
wide = record fresh { width = 5; precision = 3 }

put_string-aligned_example :
    put_string 10 (placed (chars "hello") 100) wide 100
    ≡ some (aligned wide (cut 3 (chars "hello")))
put_string-aligned_example =
    put_string-aligned 10 (placed (chars "hello") 100) wide 100 (chars "hello") (omega arith)
      (λ e. omega arith) (refl, refl, (refl, refl, (refl, refl, (refl, refl, (refl, refl, refl)))))
      (omega arith, (omega arith, (omega arith, (omega arith, (omega arith, tt))))) (omega arith)
      refl

abbrev seven : Numeral 7 10 0 32 (chars "7")
seven = record {
  digits = 7 ∷ [];
  spells = refl;
  below = (omega arith, tt);
  leads = λ h. omega arith;
  nought = λ e. absurd (omega arith);
  layout = refl;
}

strtol-IsDecimal_example : strtol 10 (placed (chars "7") 100) 100 10 ≡ some (7, 100 + 1)
strtol-IsDecimal_example =
    strtol-IsDecimal 10 (placed (chars "7") 100) 100 7 32 (chars "7") (omega arith)
      (inl (refl, seven)) (refl, refl, refl) (omega arith)

memmove-moved_example :
    memmove (placed (chars "hello") 100) 102 100 5 104
    ≡ moved (placed (chars "hello") 100) 102 100 5 104
memmove-moved_example = memmove-moved (placed (chars "hello") 100) 102 100 5 104

user_vcprintf_lem_example :
    (concat (user_vcprintf (λ q. 0) (chars "hello")).0 ≡ map low (chars "hello"))
    × All IsBatch (user_vcprintf (λ q. 0) (chars "hello")).0
    × ((user_vcprintf (λ q. 0) (chars "hello")).1 ≡ u32 (length (chars "hello")))
user_vcprintf_lem_example = user_vcprintf_lem (λ q. 0) (chars "hello")
