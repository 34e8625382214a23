-- ===== src/Strings/Strtol.antt =====
-- strtol of lib/string.c. A `long` has 32 bits, and its overflow is a wrap. The loops have fuel.
use lab3a.Base.{
  ℕ, zero, suc, ◌+◌, ◌-◌, ◌*◌, ◌^◌, Option, none, some, Bool, true, false, leb, ◌==◌, ◌&&◌, ◌||◌,
  if◌then◌else◌,
}
use lab3a.Mmu.{u32}
use lab3a.Strings.{Bytes}

unfoldable pub skip_blanks : ℕ → Bytes → ℕ → Option ℕ
skip_blanks zero mem s = none
skip_blanks (suc fuel) mem s =
    let rest = skip_blanks fuel mem (s + 1) in
    if (mem s == b' ') || (mem s == b'\t') then rest else some s

-- The digit that a character stands for, in any base.
abbrev pub digit_of : ℕ → Option ℕ
digit_of c =
    if leb b'0' c && leb c b'9'
    then some (c - b'0')
    else if leb b'a' c && leb c b'z'
    then some (c - b'a' + 10)
    else if leb b'A' c && leb c b'Z'
    then some (c - b'A' + 10)
    else none

-- One round of the loop, with the rest of it: the value, and the place that is reached.
abbrev pub with_digit : (ℕ → Option (ℕ × ℕ)) → ℕ → ℕ → ℕ → Option ℕ → Option (ℕ × ℕ)
with_digit rest s base val none = some (val, s)
with_digit rest s base val (some dig) =
    if leb base dig then some (val, s) else rest (u32 (val * base + dig))

unfoldable pub read_digits : ℕ → Bytes → ℕ → ℕ → ℕ → Option (ℕ × ℕ)
read_digits zero mem s base val = none
read_digits (suc fuel) mem s base val =
    with_digit (read_digits fuel mem (s + 1) base) s base val (digit_of (mem s))

-- The base's prefix: where the digits start, and their base.
abbrev pub base_prefix : Bytes → ℕ → ℕ → ℕ × ℕ
base_prefix mem s base =
    if ((base == 0) || (base == 16)) && ((mem s == b'0') && (mem (s + 1) == b'x'))
    then (s + 2, 16)
    else if (base == 0) && (mem s == b'0')
    then (s + 1, 8)
    else if base == 0
    then (s, 10)
    else (s, base)

abbrev pub negated : Bool → Option (ℕ × ℕ) → Option (ℕ × ℕ)
negated neg none = none
negated neg (some (val, s)) = some ((if neg then u32 (2 ^ 32 - val) else val), s)

abbrev pub unsigned : ℕ → Bytes → Bool → ℕ → ℕ × ℕ → Option (ℕ × ℕ)
unsigned fuel mem neg s (start, base) = negated neg (read_digits fuel mem start base 0)

-- The sign, and what follows.
abbrev pub signed : ℕ → Bytes → ℕ → Option ℕ → Option (ℕ × ℕ)
signed fuel mem base none = none
signed fuel mem base (some s) =
    if mem s == b'+'
    then unsigned fuel mem false s (base_prefix mem (s + 1) base)
    else if mem s == b'-'
    then unsigned fuel mem true s (base_prefix mem (s + 1) base)
    else unsigned fuel mem false s (base_prefix mem s base)

-- strtol(s, endptr, base): what is returned, as a 32-bit pattern, and *endptr
unfoldable pub strtol : ℕ → Bytes → ℕ → ℕ → Option (ℕ × ℕ)
strtol fuel mem s base = signed fuel mem base (skip_blanks fuel mem s)
