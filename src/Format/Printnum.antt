-- ===== src/Format/Printnum.antt =====
-- printnum and the argument readers of lib/printfmt.c.
use Prim.Native.Char.{code}
use Prim.Native.String.{String}
use lab3a.Base.{
  ℕ, zero, suc, ◌+◌, ◌-◌, ◌*◌, ◌/◌, ◌%◌, ◌^◌, Option, none, some, ltb, leb, if◌then◌else◌, List, [],
  ◌∷◌, ◌++◌,
}
use lab3a.Mmu.{is_negative}

-- The characters of a literal.
abbrev pub chars : String → List ℕ
chars String.[] = []
chars (String.◌∷◌ c s) = code c ∷ chars s

abbrev pub repeat : ℕ → ℕ → List ℕ
repeat c zero = []
repeat c (suc n) = c ∷ repeat c n

-- An `int` that is a count of characters still to print: none where it is below 1.
abbrev pub count_of : ℕ → ℕ
count_of width = if is_negative width then 0 else width

-- The character of a hexadecimal digit.
abbrev pub digit : ℕ → ℕ
digit d = if ltb d 10 then b'0' + d else b'a' + (d - 10)

-- "0123456789abcdef"[d]; behind the literal's 16 characters the read is undefined.
abbrev pub digit_at : ℕ → Option ℕ
digit_at d = if ltb d 16 then some (digit d) else none

abbrev pub then_print : Option (List ℕ) → Option ℕ → Option (List ℕ)
then_print none d = none
then_print (some out) none = none
then_print (some out) (some d) = some (out ++ (d ∷ []))

abbrev pub add_front : ℕ → Option (List ℕ) → Option (List ℕ)
add_front c none = none
add_front c (some out) = some (c ∷ out)

abbrev pub add_all : List ℕ → Option (List ℕ) → Option (List ℕ)
add_all front none = none
add_all front (some out) = some (front ++ out)

-- printnum(putch, putdat, num, base, width, padc), with `width` as a count: it prints pad characters
-- as long as --width > 0. It gives none where the fuel runs out, or a digit is not in the literal.
unfoldable pub printnum : ℕ → ℕ → ℕ → ℕ → ℕ → Option (List ℕ)
printnum zero num base width padc = none
printnum (suc fuel) num base width padc =
    let rest = printnum fuel (num / base) base (width - 1) padc in
    then_print (if leb base num then rest else some (repeat padc (width - 1)))
      (digit_at (num % base))

-- A `long long` has at most 64 binary digits.
abbrev pub printnum_fuel : ℕ
printnum_fuel = 64

-- What getuint and getint take from the arguments: the number, on 64 bits, and what is left. A
-- `long` has 32 bits, and a `long long` is two words, the low one first.
abbrev pub two_words : List ℕ → Option (ℕ × List ℕ)
two_words (low ∷ high ∷ ap) = some (low + 2 ^ 32 * high, ap)
two_words _ = none

abbrev pub one_word : (ℕ → ℕ) → List ℕ → Option (ℕ × List ℕ)
one_word extend (w ∷ ap) = some (extend w, ap)
one_word extend [] = none

abbrev pub getuint : List ℕ → ℕ → Option (ℕ × List ℕ)
getuint ap lflag = if leb 2 lflag then two_words ap else one_word (λ w. w) ap

abbrev pub sign_extend : ℕ → ℕ
sign_extend w = if is_negative w then w + (2 ^ 64 - 2 ^ 32) else w

abbrev pub getint : List ℕ → ℕ → Option (ℕ × List ℕ)
getint ap lflag = if leb 2 lflag then two_words ap else one_word sign_extend ap
