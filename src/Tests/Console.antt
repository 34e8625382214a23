-- ===== src/Tests/Console.antt =====
-- The console's devices on concrete keys and characters.
use lab3a.Base.{◌≡◌, refl, false, true, arith, [], ◌∷◌}
use lab3a.Console.Keymaps.{shiftmap}
use lab3a.Console.Keyboard.{kbd_data, Shift, kbd_proc_data, kbd_reads, pressed, typed}
use lab3a.Console.Keys.{CaseOf, kbd_proc_data-CaseOf, kbd_reads_tap}
use lab3a.Console.Display.{Display, cons_putc}
use lab3a.Console.Screen.{OnScreen, cons_putc-OnScreen}

abbrev caps : Shift
caps = record {
  shift = false;
  ctl = false;
  alt = false;
  capslock = true;
  numlock = false;
  scrolllock = false;
  e0esc = false;
}

kbd_proc_data-CaseOf_example : CaseOf (kbd_proc_data 1 0x1e caps)
kbd_proc_data-CaseOf_example = kbd_proc_data-CaseOf 1 0x1e caps (omega arith)

-- SHIFT is pressed, the key of A, both are released: with CAPSLOCK on, an 'a'.
shift_a :
    (kbd_reads ((1, 0x2a) ∷ (1, 0x1e) ∷ (1, 0x9e) ∷ (1, 0xaa) ∷ []) caps).0 ≡ 0 ∷ b'a' ∷ 0 ∷ 0 ∷ []
unfolding kbd_reads kbd_proc_data kbd_data shiftmap
shift_a = refl

kbd_reads_tap_example :
    kbd_reads ((1, 0x1e) ∷ (1, 0x9e) ∷ []) caps ≡ (typed (pressed 0x1e caps) 0x1e ∷ 0 ∷ [], caps)
kbd_reads_tap_example = kbd_reads_tap caps 0x1e (record {
  code = omega arith;
  no_escape = λ e. omega arith;
  capslock = refl;
  numlock = refl;
  scrolllock = refl;
  ctl = refl;
  shift = refl;
  alt = refl;
  settled = refl;
})

abbrev blank : Display
blank = record { crt_buf = λ i. 0; crt_pos = 1999; cursor = 0; serial = []; lpt = [] }

cons_putc-OnScreen_example : OnScreen blank (cons_putc b'x' blank)
cons_putc-OnScreen_example = cons_putc-OnScreen b'x' blank (omega arith)
