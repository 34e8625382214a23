-- ===== src/Format/Conversions.antt =====
-- The conversions of vprintfmt, in lib/printfmt.c: what each prints for its argument, with the flags, width and
-- precision of its directive. `Spec` has the locals of a directive.
use lab3a.Base.{
  ℕ, zero, suc, ◌+◌, ◌-◌, ◌*◌, ◌%◌, ◌^◌, Option, none, some, Bool, false, ltb, leb, ◌==◌, not, ◌&&◌,
  ◌||◌, if◌then◌else◌, List, [], ◌∷◌, ◌++◌, length, take,
}
use lab3a.Mmu.{u32, is_negative, neg}
use lab3a.Strings.{Bytes, strlen, strnlen}
use lab3a.Format.Printnum.{chars, repeat, count_of, printnum, printnum_fuel, add_all, add_front}

abbrev pub maxerror : ℕ
maxerror = 7

-- error_string[err]
abbrev pub error_string : ℕ → Option (List ℕ)
error_string err =
    if err == 1
    then some (chars "unspecified error")
    else if err == 2
    then some (chars "bad environment")
    else if err == 3
    then some (chars "invalid parameter")
    else if err == 4
    then some (chars "out of memory")
    else if err == 5
    then some (chars "out of environments")
    else if err == 6
    then some (chars "segmentation fault")
    else none

-- The locals of a directive.
pub record Spec : Type 0 where
  pub padc : ℕ
  pub width : ℕ
  pub precision : ℕ
  pub lflag : ℕ
  pub altflag : Bool

abbrev pub minus_one : ℕ
minus_one = neg 1

abbrev pub fresh : Spec
fresh = record { padc = b' '; width = minus_one; precision = minus_one; lflag = 0; altflag = false }

-- Why a conversion gives no text: the arguments are used up; %e has an error code that is negative after
-- its negation too, and no entry in the table; the loops of %s over the string at an address have not
-- ended within their fuel; or those of printnum have not, or its digit is not in its literal.
pub data Stop : Type 0 where
  no_argument : Stop
  bad_error_code : ℕ → Stop
  unended : ℕ → Stop
  no_digits : Stop

-- What a conversion prints.
pub data Text : Type 0 where
  shows : List ℕ → Text
  halts : Stop → Text

-- process_precision
abbrev pub process_precision : Spec → Spec
process_precision s =
    if is_negative s.width then record s { width = s.precision; precision = minus_one } else s

abbrev pub is_digit : ℕ → Bool
is_digit c = leb b'0' c && leb c b'9'

-- precision * 10 + ch - '0'
abbrev pub add_digit : Spec → ℕ → Spec
add_digit s ch = record s { precision = u32 (u32 (s.precision * 10) + (ch - b'0')) }

-- A `char` as an `int`
abbrev pub sign_char : ℕ → ℕ
sign_char c = if ltb c 128 then c else u32 (c + 2 ^ 32 - 256)

-- The characters that %s prints of a string, with its precision and altflag.
unfoldable pub shown : ℕ → Bytes → ℕ → ℕ → Bool → Option (List ℕ)
shown zero mem p precision altflag = none
shown (suc fuel) mem p precision altflag =
    let next = if is_negative precision then precision else precision - 1 in
    let rest = shown fuel mem (p + 1) next altflag in
    let ch =
      if altflag && (ltb (mem p) b' ' || ltb b'~' (mem p)) then b'?' else sign_char (mem p) in
    if mem p == 0 || precision == 0 then some [] else add_front ch rest

-- strnlen(p, precision), where the string ends or the precision is reached within the fuel
abbrev pub strnlen_within : ℕ → Bytes → ℕ → ℕ → Option ℕ
strnlen_within fuel mem p precision =
    if leb fuel precision then strlen fuel mem p else some (strnlen mem p precision)

abbrev pub null_text : ℕ → List ℕ
null_text precision =
    if is_negative precision then chars "(null)" else take precision (chars "(null)")

-- The padding in front of a string whose measured length is `len`.
abbrev pub pad_front : Spec → ℕ → List ℕ
pad_front s len = if s.padc == b'-' then [] else repeat s.padc (count_of s.width - len)

-- What is left of the width after it, and after the characters: spaces.
abbrev pub pad_back : Spec → ℕ → List ℕ
pad_back s printed =
    if ltb 0 (count_of s.width) && not (s.padc == b'-')
    then []
    else repeat b' ' (count_of s.width - printed)

abbrev pub laid_out : Spec → Option ℕ → Option (List ℕ) → Option (List ℕ)
laid_out s none text = none
laid_out s (some len) none = none
laid_out s (some len) (some text) = some (pad_front s len ++ (text ++ pad_back s (length text)))

-- case 's'
unfoldable pub put_string : ℕ → Bytes → Spec → ℕ → Option (List ℕ)
put_string fuel mem s p =
    if p == 0
    then laid_out s (some (length (null_text s.precision))) (some (null_text s.precision))
    else laid_out s (strnlen_within fuel mem p s.precision) (shown fuel mem p s.precision s.altflag)

-- `number:`, behind the characters that stand in front
abbrev pub put_number : Spec → ℕ → List ℕ → ℕ → Option (List ℕ)
put_number s base front num =
    add_all front (printnum printnum_fuel num base (count_of s.width) s.padc)

-- case 'd': the sign, and the number's size on 64 bits
unfoldable pub put_signed : Spec → ℕ → Option (List ℕ)
put_signed s num =
    if leb (2 ^ 63) num
    then put_number s 10 (b'-' ∷ []) ((2 ^ 64 - num) % 2 ^ 64)
    else put_number s 10 [] num

abbrev pub digits_or_stop : Option (List ℕ) → Text
digits_or_stop none = halts no_digits
digits_or_stop (some out) = shows out

-- %s of the string at `p`, when its loops have ended.
abbrev pub string_or_stop : ℕ → Option (List ℕ) → Text
string_or_stop p none = halts (unended p)
string_or_stop p (some out) = shows out

-- printfmt(putch, putdat, "error %d", err)
abbrev pub error_number : ℕ → Text
error_number err = digits_or_stop (add_all (chars "error ") (printnum printnum_fuel err 10 0 b' '))

-- printfmt(putch, putdat, "%s", p), where there is a p
abbrev pub error_text : ℕ → Option (List ℕ) → Text
error_text err none = error_number err
error_text err (some out) = shows out

-- case 'e', with the nested printfmt written out
unfoldable pub put_error : ℕ → Text
put_error w =
    let err = if is_negative w then neg w else w in
    if is_negative err
    then halts (bad_error_code w)
    else if leb maxerror err
    then error_number err
    else error_text err (error_string err)
