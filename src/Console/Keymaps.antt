-- ===== src/Console/Keymaps.antt =====
-- The tables of kern/console.c that give a key its character, and the codes of inc/kbdreg.h.
use lab3a.Base.{ℕ, ◌+◌, ◌-◌, ◌%◌, ltb, ◌==◌, if◌then◌else◌, List, [], ◌∷◌, get_or}

abbrev pub key_home : ℕ
key_home = 0xe0

abbrev pub key_del : ℕ
key_del = 0xe9

abbrev pub no_char : ℕ
no_char = 0

-- The entries from 0x97 on, which the three tables share but for some.
abbrev pub extended : ℕ → ℕ
extended byte =
    if byte == 0xc8
    then 0xe2
    else if byte == 0xc9
    then 0xe6
    else if byte == 0xcb
    then 0xe4
    else if byte == 0xcd
    then 0xe5
    else if byte == 0xcf
    then 0xe1
    else if byte == 0xd0
    then 0xe3
    else if byte == 0xd1
    then 0xe7
    else if byte == 0xd2
    then 0xe8
    else if byte == 0xd3
    then key_del
    else no_char

-- The entries of normalmap and shiftmap behind their rows.
abbrev pub extended_plain : ℕ → ℕ
extended_plain byte =
    if byte == 0xc7
    then key_home
    else if byte == 0x9c
    then b'\n'
    else if byte == 0xb5
    then b'/'
    else extended byte

-- The rows from 0x37 on, the keypad and what stands in front of it, in both maps.
abbrev pub keypad : List ℕ
keypad =
    b'*' ∷ 0 ∷ b' ' ∷ 0 ∷ 0 ∷ 0 ∷ 0 ∷ 0 ∷ 0 ∷ 0 ∷ 0 ∷ 0 ∷ 0 ∷ 0 ∷ 0 ∷ 0 ∷ b'7' ∷ b'8' ∷ b'9' ∷ b'-'
    ∷ b'4' ∷ b'5' ∷ b'6' ∷ b'+' ∷ b'1' ∷ b'2' ∷ b'3' ∷ b'0' ∷ b'.' ∷ 0 ∷ 0 ∷ 0 ∷ 0 ∷ []

abbrev pub normal_rows : List ℕ
normal_rows =
    0 ∷ 0x1b ∷ b'1' ∷ b'2' ∷ b'3' ∷ b'4' ∷ b'5' ∷ b'6' ∷ b'7' ∷ b'8' ∷ b'9' ∷ b'0' ∷ b'-' ∷ b'=' ∷ 8
    ∷ b'\t' ∷ b'q' ∷ b'w' ∷ b'e' ∷ b'r' ∷ b't' ∷ b'y' ∷ b'u' ∷ b'i' ∷ b'o' ∷ b'p' ∷ b'[' ∷ b']'
    ∷ b'\n' ∷ 0 ∷ b'a' ∷ b's' ∷ b'd' ∷ b'f' ∷ b'g' ∷ b'h' ∷ b'j' ∷ b'k' ∷ b'l' ∷ b';' ∷ 39 ∷ b'`'
    ∷ 0 ∷ 92 ∷ b'z' ∷ b'x' ∷ b'c' ∷ b'v' ∷ b'b' ∷ b'n' ∷ b'm' ∷ b',' ∷ b'.' ∷ b'/' ∷ 0 ∷ keypad

abbrev pub shift_rows : List ℕ
shift_rows =
    0 ∷ 27 ∷ b'!' ∷ b'@' ∷ b'#' ∷ b'$' ∷ b'%' ∷ b'^' ∷ b'&' ∷ b'*' ∷ b'(' ∷ b')' ∷ b'_' ∷ b'+' ∷ 8
    ∷ b'\t' ∷ b'Q' ∷ b'W' ∷ b'E' ∷ b'R' ∷ b'T' ∷ b'Y' ∷ b'U' ∷ b'I' ∷ b'O' ∷ b'P' ∷ b'{' ∷ b'}'
    ∷ b'\n' ∷ 0 ∷ b'A' ∷ b'S' ∷ b'D' ∷ b'F' ∷ b'G' ∷ b'H' ∷ b'J' ∷ b'K' ∷ b'L' ∷ b':' ∷ 34 ∷ b'~'
    ∷ 0 ∷ b'|' ∷ b'Z' ∷ b'X' ∷ b'C' ∷ b'V' ∷ b'B' ∷ b'N' ∷ b'M' ∷ b'<' ∷ b'>' ∷ b'?' ∷ 0 ∷ keypad

-- C(x), an `int` cut to a byte
abbrev pub control : ℕ → ℕ
control x = (x + 256 - b'@') % 256

abbrev pub ctl_rows : List ℕ
ctl_rows =
    0
    ∷ 0
    ∷ 0
    ∷ 0
    ∷ 0
    ∷ 0
    ∷ 0
    ∷ 0
    ∷ 0
    ∷ 0
    ∷ 0
    ∷ 0
    ∷ 0
    ∷ 0
    ∷ 0
    ∷ 0
    ∷ control b'Q'
    ∷ control b'W'
    ∷ control b'E'
    ∷ control b'R'
    ∷ control b'T'
    ∷ control b'Y'
    ∷ control b'U'
    ∷ control b'I'
    ∷ control b'O'
    ∷ control b'P'
    ∷ 0
    ∷ 0
    ∷ b'\r'
    ∷ 0
    ∷ control b'A'
    ∷ control b'S'
    ∷ control b'D'
    ∷ control b'F'
    ∷ control b'G'
    ∷ control b'H'
    ∷ control b'J'
    ∷ control b'K'
    ∷ control b'L'
    ∷ 0
    ∷ 0
    ∷ 0
    ∷ 0
    ∷ control 92
    ∷ control b'Z'
    ∷ control b'X'
    ∷ control b'C'
    ∷ control b'V'
    ∷ control b'B'
    ∷ control b'N'
    ∷ control b'M'
    ∷ 0
    ∷ 0
    ∷ control b'/'
    ∷ 0
    ∷ 0
    ∷ []

unfoldable pub normalmap : ℕ → ℕ
normalmap byte = if ltb byte 0x58 then get_or normal_rows byte 0 else extended_plain byte

unfoldable pub shiftmap : ℕ → ℕ
shiftmap byte = if ltb byte 0x58 then get_or shift_rows byte 0 else extended_plain byte

unfoldable pub ctlmap : ℕ → ℕ
ctlmap byte =
    if ltb byte 0x40
    then get_or ctl_rows byte 0
    else if byte == 0x97
    then key_home
    else if byte == 0xb5
    then control b'/'
    else extended byte
