-- ===== src/Console/Keys.antt =====
-- What the keyboard driver of kern/console.c makes of keys: the case of letters, and the modifiers
-- after a key was pressed and released.
use mathlib.Core.Bool.{false≢true}
use lab3a.Base.{
  sym, ℕ, zero, suc, ◌<◌, ◌≡◌, refl, Bool, true, false, ◌&&◌, not, ◌==◌, Bool-cases, inl, inr,
  arith, ==_iff, if◌then◌else◌, ◌∙◌, leb, ◌+◌, ◌%◌, ◌||◌, ◌/◌, ◌≢◌, ap, ◌∷◌, [], List,
}
use lab3a.Console.Keymaps.{normalmap, shiftmap}
use lab3a.Console.Keyboard.{
  no_data, is_lower, is_upper, Shift, kbd_proc_data, swap_case, kbd_data, char, Poll, typed,
  released, is_ctl, pressed, is_shift, is_alt, kbd_reads, key_down,
}

-- A test on all numbers below a bound.
abbrev all_below : ℕ → (ℕ → Bool) → Bool
all_below zero test = true
all_below (suc n) test = test n && all_below n test

all_below-at : (n : ℕ) (test : ℕ → Bool) (i : ℕ) → all_below n test ≡ true → i < n → test i ≡ true
all_below-at zero test i h less = absurd (omega arith)
all_below-at (suc n) test i h less = elim (Bool-cases (i == n)) [
  | inl e ↦ rw ((==_iff i n).0 e) (first (test n) (all_below n test) h)
  | inr e ↦ all_below-at n test i (second (test n) (all_below n test) h) (ground arith)
]
  where
    first : (a b : Bool) → (a && b) ≡ true → a ≡ true
    first true b e = refl
    first false b e = e

    second : (a b : Bool) → (a && b) ≡ true → b ≡ true
    second true b e = e
    second false b e = cc

abbrev plain_cases : ℕ → Bool
plain_cases b = not (is_upper (normalmap b)) && not (is_lower (shiftmap b))

plain_cases_all : all_below 256 plain_cases ≡ true
unfolding normalmap shiftmap
plain_cases_all = refl

normalmap-case : (b : ℕ) → b < 256 → is_upper (normalmap b) ≡ false
normalmap-case b h =
    let both = all_below-at 256 plain_cases b plain_cases_all h in
    go (is_upper (normalmap b)) (is_lower (shiftmap b)) both
  where
    go : (x y : Bool) → (not x && not y) ≡ true → x ≡ false
    go true y e = cc
    go false y e = refl

shiftmap-case : (b : ℕ) → b < 256 → is_lower (shiftmap b) ≡ false
shiftmap-case b h =
    let both = all_below-at 256 plain_cases b plain_cases_all h in
    go (is_upper (normalmap b)) (is_lower (shiftmap b)) both
  where
    go : (x y : Bool) → (not x && not y) ≡ true → y ≡ false
    go true y e = cc
    go false true e = cc
    go false false e = refl

-- A letter is in upper case exactly where one of SHIFT and CAPSLOCK is on.
abbrev pub HasCase : Shift → ℕ → Type 0
HasCase s c =
    (is_lower c ≡ true → s.shift ≡ s.capslock) × (is_upper c ≡ true → s.shift ≡ not s.capslock)

swap_case_lower : (c : ℕ) → is_upper c ≡ false → is_lower (swap_case c) ≡ false
swap_case_lower c h = ground arith

swap_case_upper : (c : ℕ) → is_lower c ≡ false → is_upper (swap_case c) ≡ false
swap_case_upper c h = ground arith

case_of :
    (x y : ℕ) (up caps : Bool)
    → is_upper x ≡ false
    → is_lower y ≡ false
    → let c = if up then y else x in
      let d = if caps then swap_case c else c in
      (is_lower d ≡ true → up ≡ caps) × (is_upper d ≡ true → up ≡ not caps)
case_of x y true true hx hy = (λ e. refl, λ e. absurd (false≢true (sym (swap_case_upper y hy) ∙ e)))
case_of x y true false hx hy = (λ e. absurd (false≢true (sym hy ∙ e)), λ e. refl)
case_of x y false true hx hy =
    (λ e. absurd (false≢true (sym (swap_case_lower x hx) ∙ e)), λ e. refl)
case_of x y false false hx hy = (λ e. refl, λ e. absurd (false≢true (sym hx ∙ e)))

-- What a poll leads to: without CTL down, a letter has the case of the modifiers.
abbrev pub CaseOf : Poll × Shift → Type 0
CaseOf (no_data, s) = Unit
CaseOf (char c reboot, s) = s.ctl ≡ false → HasCase s c

typed-HasCase : (s : Shift) (b : ℕ) → b < 256 → s.ctl ≡ false → HasCase s (typed s b)
typed-HasCase s b h ctl =
    rw ctl (
      case_of (normalmap b) (shiftmap b) s.shift s.capslock (normalmap-case b h)
        (shiftmap-case b h))

-- The byte 0, which stands for no character, is no letter.
nothing-HasCase : (s : Shift) → HasCase s 0
nothing-HasCase s = (λ e. cc, λ e. cc)

-- Whatever byte the keyboard delivers, in whatever state of the modifiers: when CTL is not down
-- afterwards, the character that kbd_proc_data returns is a lower-case letter only where SHIFT and
-- CAPSLOCK are both on or both off, and an upper-case letter only where one of them is on.
pub kbd_proc_data-CaseOf :
    (stat byte : ℕ) (s : Shift) → byte < 256 → CaseOf (kbd_proc_data stat byte s)
unfolding kbd_proc_data kbd_data
kbd_proc_data-CaseOf stat byte s h = elim (Bool-cases ((stat % 2 == 0) || (stat / 32 % 2 == 1))) [
  | inl e ↦ rw e tt
  | inr e ↦ rw e (elim (Bool-cases (byte == 0xe0)) [
    | inl f ↦ rw f (λ ctl. nothing-HasCase (record s { e0esc = true }))
    | inr f ↦ rw f (elim (Bool-cases (leb 0x80 byte)) [
      | inl g ↦ rw g (λ ctl. nothing-HasCase (released (if s.e0esc then byte else byte % 128) s))
      | inr g ↦ rw g (λ ctl.
          typed-HasCase (pressed (if s.e0esc then byte + 128 else byte) s)
            (if s.e0esc then byte + 128 else byte) (completed s.e0esc g) ctl)
    ])
  ])
]
  where
    completed : (esc : Bool) → leb 0x80 byte ≡ false → (if esc then byte + 128 else byte) < 256
    completed true g = ground arith
    completed false g = h

set_clear : (a b : Bool) → (a && b) ≡ false → ((a || b) && not b) ≡ a
set_clear true true e = sym e
set_clear true false e = refl
set_clear false true e = refl
set_clear false false e = refl

-- A key that is no lock key and whose modifier, if it is one, is not down.
pub record IsFree (s : Shift) (key : ℕ) : Type 0 where
  pub code : key < 0x80
  pub no_escape : key ≢ 0x60
  pub capslock : (key == 0x3a) ≡ false
  pub numlock : (key == 0x45) ≡ false
  pub scrolllock : (key == 0x46) ≡ false
  pub ctl : (s.ctl && is_ctl key) ≡ false
  pub shift : (s.shift && is_shift key) ≡ false
  pub alt : (s.alt && is_alt key) ≡ false
  pub settled : s.e0esc ≡ false

released-pressed : (s : Shift) (key : ℕ) → IsFree s key → released key (pressed key s) ≡ s
released-pressed s key f =
    rw
      (
        f.capslock,
        f.numlock,
        f.scrolllock,
        set_clear s.ctl (is_ctl key) f.ctl,
        set_clear s.shift (is_shift key) f.shift,
        set_clear s.alt (is_alt key) f.alt,
      )
      (ap (λ (b : Bool). record s { e0esc = b }) (sym f.settled))

kbd_data-press :
    (s : Shift) (key : ℕ) → key < 0x80 → s.e0esc ≡ false → kbd_data key s ≡ key_down key s
unfolding kbd_data
kbd_data-press s key h settled =
    let no_start : (key == 0xe0) ≡ false = ground arith in
    let down : leb 0x80 key ≡ false = ground arith in
    rw (no_start, down) (ap (λ (esc : Bool). key_down (if esc then key + 128 else key) s) settled)

kbd_data-release :
    (s : Shift) (key : ℕ)
    → key < 0x80
    → key ≢ 0x60
    → s.e0esc ≡ false
    → kbd_data (key + 128) s ≡ (char 0 false, released key s)
unfolding kbd_data
kbd_data-release s key h ne settled =
    let no_start : (key + 128 == 0xe0) ≡ false = ground arith in
    let up : leb 0x80 (key + 128) ≡ true = ground arith in
    let same : (key + 128) % 128 ≡ key = omega arith in
    rw (no_start, up)
      (ap
          (λ (esc : Bool).
            (char 0 false, released (if esc then key + 128 else (key + 128) % 128) s))
          settled
        ∙ ap (λ (k : ℕ). (char 0 false, released k s)) same)

kbd_reads_char :
    (b : ℕ) (polls : List (ℕ × ℕ)) (s s' : Shift) (c : ℕ) (reboot : Bool)
    → kbd_data b s ≡ (char c reboot, s')
    → kbd_reads ((1, b) ∷ polls) s ≡ (c ∷ (kbd_reads polls s').0, (kbd_reads polls s').1)
unfolding kbd_reads kbd_proc_data
kbd_reads_char b polls s s' c reboot e = rw e refl

-- A key of code below 0x80 other than 0x60, no lock key, whose modifier is not down, is pressed and then
-- released, with nothing in between: the two polls deliver the character that the modifiers and the key
-- make and no other, and the modifiers are what they were.
pub kbd_reads_tap :
    (s : Shift) (key : ℕ)
    → IsFree s key
    → kbd_reads ((1, key) ∷ (1, key + 128) ∷ []) s ≡ (typed (pressed key s) key ∷ 0 ∷ [], s)
unfolding kbd_reads
kbd_reads_tap s key f =
    let s' = pressed key s in
    kbd_reads_char key ((1, key + 128) ∷ []) s s' _ _ (kbd_data-press s key f.code f.settled)
    ∙ ap (λ (r : List ℕ × Shift). (typed s' key ∷ r.0, r.1))
        (kbd_reads_char (key + 128) [] s' (released key s') 0 false
          (kbd_data-release s' key f.code f.no_escape refl))
    ∙ ap (λ (t : Shift). (typed s' key ∷ 0 ∷ [], t)) (released-pressed s key f)
