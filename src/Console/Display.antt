-- ===== src/Console/Display.antt =====
-- The console's output of kern/console.c: serial_putc, lpt_putc, cga_putc and cons_putc, and memmove on
-- the cells of the screen. The characters written to the serial and the parallel port are lists, the last
-- one in front; the loops that wait for a device are left out. A character is an `int`'s 32-bit pattern
-- with its attribute in the second byte.
use lab3a.Base.{ℕ, ◌+◌, ◌-◌, ◌*◌, ◌/◌, ◌%◌, ◌^◌, ltb, leb, ◌==◌, if◌then◌else◌, List, ◌∷◌, update}

abbrev pub crt_cols : ℕ
crt_cols = 80

-- CRT_SIZE, 25 rows of 80
abbrev pub crt_size : ℕ
crt_size = 2000

-- The screen's cells, 16 bits each, the cursor, which is kept on 16 bits, its place as the 6845 has it,
-- and what the ports were sent.
pub record Display : Type 0 where
  pub crt_buf : ℕ → ℕ
  pub crt_pos : ℕ
  pub cursor : ℕ
  pub serial : List ℕ
  pub lpt : List ℕ

abbrev pub u16 : ℕ → ℕ
u16 n = n % 2 ^ 16

-- c |= 0x0700 where no attribute is given
abbrev pub with_attribute : ℕ → ℕ
with_attribute c = if ltb c 256 then c + 0x0700 else c

-- (c & ~0xff) | ' '
abbrev pub blank_of : ℕ → ℕ
blank_of c = u16 (c / 256 * 256 + b' ')

-- crt_pos -= (crt_pos % CRT_COLS)
abbrev pub line_start : ℕ → ℕ
line_start pos = u16 (pos + 2 ^ 16 - pos % crt_cols)

-- The switch of cga_putc, but for '\t', with the attribute given.
unfoldable pub cga_switch : ℕ → Display → Display
cga_switch c d =
    if c % 256 == 8
    then (if ltb 0 d.crt_pos
        then record d {
          crt_buf = update d.crt_buf (d.crt_pos - 1) (blank_of c);
          crt_pos = d.crt_pos - 1;
        }
        else d)
    else if c % 256 == b'\n'
    then record d { crt_pos = line_start (u16 (d.crt_pos + crt_cols)) }
    else if c % 256 == b'\r'
    then record d { crt_pos = line_start d.crt_pos }
    else record d { crt_buf = update d.crt_buf d.crt_pos (u16 c); crt_pos = u16 (d.crt_pos + 1) }

-- The screen moved up by a row, the last row blank.
abbrev pub scrolled : (ℕ → ℕ) → ℕ → ℕ
scrolled crt_buf i =
    if ltb i (crt_size - crt_cols)
    then crt_buf (i + crt_cols)
    else if ltb i crt_size
    then 0x0700 + b' '
    else crt_buf i

unfoldable pub scroll : Display → Display
scroll d =
    if leb crt_size d.crt_pos
    then record d { crt_buf = scrolled d.crt_buf; crt_pos = u16 (d.crt_pos + 2 ^ 16 - crt_cols) }
    else d

-- The cursor's two bytes, written to the 6845.
abbrev pub move_cursor : Display → Display
move_cursor d = record d { cursor = d.crt_pos / 256 % 256 * 256 + d.crt_pos % 256 }

-- serial_putc and lpt_putc
abbrev pub ports_putc : ℕ → Display → Display
ports_putc c d = record d { serial = c % 256 ∷ d.serial; lpt = c % 256 ∷ d.lpt }

-- cga_putc and cons_putc of a character other than '\t'
abbrev pub cga_plain : ℕ → Display → Display
cga_plain c d = move_cursor (scroll (cga_switch (with_attribute c) d))

abbrev pub cons_plain : ℕ → Display → Display
cons_plain c d = cga_plain c (ports_putc c d)

abbrev pub five_blanks : Display → Display
five_blanks d =
    cons_plain b' ' (cons_plain b' ' (cons_plain b' ' (cons_plain b' ' (cons_plain b' ' d))))

unfoldable pub cga_putc : ℕ → Display → Display
cga_putc c d = if c % 256 == b'\t' then move_cursor (scroll (five_blanks d)) else cga_plain c d

-- cons_putc, and cputchar
unfoldable pub cons_putc : ℕ → Display → Display
cons_putc c d = cga_putc c (ports_putc c d)
