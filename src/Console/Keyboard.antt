-- ===== src/Console/Keyboard.antt =====
-- The keyboard of kern/console.c: kbd_proc_data as a step on the modifiers, and kbd_intr; and the serial
-- port's input. The flags of the static `shift` are Booleans. What the device's ports give at a poll, the
-- status and the data byte, is an argument.
use lab3a.Base.{
  ℕ, ◌+◌, ◌-◌, ◌/◌, ◌%◌, Bool, true, false, leb, ◌==◌, not, ◌&&◌, ◌||◌, if◌then◌else◌, List, [],
  ◌∷◌,
}
use lab3a.Machine.{M, pure}
use lab3a.Console.{cons_intr}
use lab3a.Console.Keymaps.{key_del, normalmap, shiftmap, ctlmap}

-- The modifiers in `shift`: SHIFT, CTL, ALT, CAPSLOCK, NUMLOCK, SCROLLLOCK, and E0ESC.
pub record Shift : Type 0 where
  pub shift : Bool
  pub ctl : Bool
  pub alt : Bool
  pub capslock : Bool
  pub numlock : Bool
  pub scrolllock : Bool
  pub e0esc : Bool

-- The tests of shiftcode[data] for CTL, SHIFT and ALT, and of togglecode[data].
abbrev pub is_ctl : ℕ → Bool
is_ctl byte = (byte == 0x1d) || (byte == 0x9d)

abbrev pub is_shift : ℕ → Bool
is_shift byte = (byte == 0x2a) || (byte == 0x36)

abbrev pub is_alt : ℕ → Bool
is_alt byte = (byte == 0x38) || (byte == 0xb8)

-- charcode[shift & (CTL | SHIFT)][data]
abbrev pub charcode : Shift → ℕ → ℕ
charcode s byte = if s.ctl then ctlmap byte else if s.shift then shiftmap byte else normalmap byte

abbrev pub is_lower : ℕ → Bool
is_lower c = leb b'a' c && leb c b'z'

abbrev pub is_upper : ℕ → Bool
is_upper c = leb b'A' c && leb c b'Z'

-- The letters' case under CAPSLOCK.
abbrev pub swap_case : ℕ → ℕ
swap_case c = if is_lower c then c - 32 else if is_upper c then c + 32 else c

-- shift &= ~(shiftcode[data] | E0ESC)
abbrev pub released : ℕ → Shift → Shift
released byte s = record s {
  ctl = s.ctl && not (is_ctl byte);
  shift = s.shift && not (is_shift byte);
  alt = s.alt && not (is_alt byte);
  e0esc = false;
}

abbrev pub xor : Bool → Bool → Bool
xor a b = if b then not a else a

-- shift |= shiftcode[data]; shift ^= togglecode[data]; behind the end of an escape
abbrev pub pressed : ℕ → Shift → Shift
pressed byte s = record s {
  ctl = s.ctl || is_ctl byte;
  shift = s.shift || is_shift byte;
  alt = s.alt || is_alt byte;
  capslock = xor s.capslock (byte == 0x3a);
  numlock = xor s.numlock (byte == 0x45);
  scrolllock = xor s.scrolllock (byte == 0x46);
  e0esc = false;
}

-- What a poll gives: nothing, or a character, 0 for none, and whether the machine reboots.
pub data Poll : Type 0 where
  no_data : Poll
  char : ℕ → Bool → Poll

-- The character that is typed in a state of the modifiers.
abbrev pub typed : Shift → ℕ → ℕ
typed s byte = if s.capslock then swap_case (charcode s byte) else charcode s byte

-- A key is pressed, with its code completed.
abbrev pub key_down : ℕ → Shift → Poll × Shift
key_down byte s =
    let s' = pressed byte s in
    let c = typed s' byte in (char c (s'.ctl && (s'.alt && (c == key_del))), s')

-- kbd_proc_data behind its tests of the status
unfoldable pub kbd_data : ℕ → Shift → Poll × Shift
kbd_data byte s =
    if byte == 0xe0
    then (char 0 false, record s { e0esc = true })
    else if leb 0x80 byte
    then (char 0 false, released (if s.e0esc then byte else byte % 128) s)
    else key_down (if s.e0esc then byte + 128 else byte) s

-- kbd_proc_data
unfoldable pub kbd_proc_data : ℕ → ℕ → Shift → Poll × Shift
kbd_proc_data stat byte s =
    if (stat % 2 == 0) || (stat / 32 % 2 == 1) then (no_data, s) else kbd_data byte s

-- The characters that a run of polls delivers, up to the first without data.
unfoldable pub kbd_reads : List (ℕ × ℕ) → Shift → List ℕ × Shift
kbd_reads [] s = ([], s)
kbd_reads ((stat, byte) ∷ polls) s =
    let (p, s') = kbd_proc_data stat byte s in let rest = kbd_reads polls s' in read p rest s'
  where
    read : Poll → List ℕ × Shift → Shift → List ℕ × Shift
    read no_data rest s' = ([], s')
    read (char c reboot) rest s' = (c ∷ rest.0, rest.1)

-- kbd_intr
unfoldable pub kbd_intr : List (ℕ × ℕ) → Shift → M (Unit {0})
kbd_intr polls s = cons_intr (kbd_reads polls s).0

-- serial_proc_data, over a run of polls
unfoldable pub serial_reads : List (ℕ × ℕ) → List ℕ
serial_reads [] = []
serial_reads ((status, byte) ∷ polls) =
    let rest = serial_reads polls in if status % 2 == 0 then [] else byte ∷ rest

-- serial_intr
unfoldable pub serial_intr : Bool → List (ℕ × ℕ) → M (Unit {0})
serial_intr serial_exists polls = if serial_exists then cons_intr (serial_reads polls) else pure tt
