-- ===== src/Format.antt =====
-- Formatted output of lib/printfmt.c and kern/printf.c. What vprintfmt does to the world are its calls
-- of putch, so a run gives the characters that it passes to putch, in order. The format and the strings
-- are read from memory by bytes, the variable arguments are the 32-bit words on the stack. An `int` is its
-- 32-bit pattern. Each step of vprintfmt takes one unit of fuel.
pub mod Printnum
pub mod Conversions
pub mod Digits
pub mod Run
pub mod Halts
pub mod Arguments
pub mod Measure
pub mod Directive
pub mod Ends
pub mod Buffer
pub mod Signed
pub mod Padding
pub mod RoundTrip
pub mod Batches
use lab3a.Base.{
  ℕ, zero, suc, ◌+◌, ◌-◌, ◌*◌, ◌/◌, ◌%◌, ◌^◌, Option, none, some, Bool, true, false, ltb, leb, ◌==◌,
  not, ◌&&◌, ◌||◌, if◌then◌else◌, List, [], ◌∷◌, ◌++◌, length, take,
}
use lab3a.Mmu.{u32, is_negative, neg, e_inval}
use lab3a.Strings.{Bytes, strlen, strnlen}
use lab3a.Format.Printnum.{
  chars, repeat, count_of, printnum, printnum_fuel, getuint, getint, one_word, then_print, add_all,
  add_front,
}
use lab3a.Format.Conversions.{
  maxerror, error_string, Spec, minus_one, fresh, Stop, Text, process_precision, is_digit,
  add_digit, sign_char, shown, strnlen_within, null_text, pad_front, pad_back, laid_out, put_string,
  put_number, put_signed, digits_or_stop, string_or_stop, error_number, error_text, put_error,
  no_argument, bad_error_code, unended, no_digits, shows, halts,
}

-- Where vprintfmt is: in the text, behind the flags read so far, or in the digits of a width.
pub data Mode : Type 0 where
  in_text : Mode
  in_spec : Spec → Mode
  in_digits : Spec → Mode

-- What a step leads to: the end; characters, then the next mode, place and arguments; or no step.
pub data Next : Type 0 where
  finished : Next
  go_on : List ℕ → Mode → ℕ → List ℕ → Next
  stuck : Stop → Next

-- The loop of the default case, back to the place behind the '%'.
unfoldable pub back_to_percent : Bytes → ℕ → ℕ
back_to_percent mem zero = 0
back_to_percent mem (suc fmt) =
    let rest = back_to_percent mem fmt in if mem fmt == b'%' then suc fmt else rest

-- A conversion: its text is printed, and the format goes on behind it.
abbrev pub convert : ℕ → List ℕ → Text → Next
convert fmt ap (halts s) = stuck s
convert fmt ap (shows out) = go_on out in_text fmt ap

abbrev pub with_num : (ℕ → Text) → ℕ → Option (ℕ × List ℕ) → Next
with_num print fmt none = stuck no_argument
with_num print fmt (some (num, ap)) = convert fmt ap (print num)

abbrev pub with_precision : Spec → ℕ → Option (ℕ × List ℕ) → Next
with_precision s fmt none = stuck no_argument
with_precision s fmt (some (w, ap)) =
    go_on [] (in_spec (process_precision (record s { precision = w }))) fmt ap

abbrev pub word : List ℕ → Option (ℕ × List ℕ)
word ap = one_word (λ w. w) ap

-- The switch: `ch` is read, `fmt` stands behind it.
unfoldable pub step_spec : ℕ → Bytes → Spec → ℕ → ℕ → List ℕ → Next
step_spec fuel mem s ch fmt ap =
    if ch == b'-'
    then go_on [] (in_spec (record s { padc = b'-' })) fmt ap
    else if ch == b'0'
    then go_on [] (in_spec (record s { padc = b'0' })) fmt ap
    else if is_digit ch
    then go_on [] (in_digits (add_digit (record s { precision = 0 }) ch)) fmt ap
    else if ch == b'*'
    then with_precision s fmt (word ap)
    else if ch == b'.'
    then go_on [] (in_spec (if is_negative s.width then record s { width = 0 } else s)) fmt ap
    else if ch == b'#'
    then go_on [] (in_spec (record s { altflag = true })) fmt ap
    else if ch == b'l'
    then go_on [] (in_spec (record s { lflag = s.lflag + 1 })) fmt ap
    else if ch == b'c'
    then with_num (λ c. shows (c ∷ [])) fmt (word ap)
    else if ch == b'e'
    then with_num put_error fmt (word ap)
    else if ch == b's'
    then with_num (λ p. string_or_stop p (put_string fuel mem s p)) fmt (word ap)
    else if ch == b'd'
    then with_num (λ num. digits_or_stop (put_signed s num)) fmt (getint ap s.lflag)
    else if ch == b'u'
    then with_num (λ num. digits_or_stop (put_number s 10 [] num)) fmt (getuint ap s.lflag)
    else if ch == b'o'
    then go_on (chars "XXX") in_text fmt ap
    else if ch == b'p'
    then with_num (λ num. digits_or_stop (put_number s 16 (chars "0x") num)) fmt (word ap)
    else if ch == b'x'
    then with_num (λ num. digits_or_stop (put_number s 16 [] num)) fmt (getuint ap s.lflag)
    else if ch == b'%'
    then go_on (ch ∷ []) in_text fmt ap
    else go_on (b'%' ∷ []) in_text (back_to_percent mem (fmt - 1)) ap

-- One step of vprintfmt, in a mode, at a place of the format.
unfoldable pub step : ℕ → Bytes → Mode → ℕ → List ℕ → Next
step fuel mem in_text fmt ap =
    if mem fmt == b'%'
    then go_on [] (in_spec fresh) (fmt + 1) ap
    else if mem fmt == 0
    then finished
    else go_on (mem fmt ∷ []) in_text (fmt + 1) ap
step fuel mem (in_spec s) fmt ap = step_spec fuel mem s (mem fmt) (fmt + 1) ap
step fuel mem (in_digits s) fmt ap =
    if is_digit (mem fmt)
    then go_on [] (in_digits (add_digit s (mem fmt))) (fmt + 1) ap
    else go_on [] (in_spec (process_precision s)) fmt ap
