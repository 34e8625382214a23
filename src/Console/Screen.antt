-- ===== src/Console/Screen.antt =====
-- The console's output keeps to the screen's memory, and what the ports are sent.
use lab3a.Base.{
  ap, ℕ, ◌+◌, ◌-◌, ◌%◌, ◌<◌, ◌≤◌, ◌≡◌, refl, ◌∙◌, true, false, ◌==◌, ltb, leb, if◌then◌else◌,
  Bool-cases, inl, inr, arith, update_ne, ◌∷◌, List, le→ltb,
}
use lab3a.Console.Display.{
  Display, crt_cols, crt_size, u16, with_attribute, cga_switch, scrolled, scroll, move_cursor,
  ports_putc, cons_plain, five_blanks, cga_putc, cons_putc, blank_of,
}

-- The cursor is on the screen, or at most at its end, and nothing behind the screen was written.
record Drawn (d d' : Display) (limit : ℕ) : Type 0 where
  place : d'.crt_pos < limit
  outside : (i : ℕ) → crt_size ≤ i → d'.crt_buf i ≡ d.crt_buf i

cga_switch-Drawn :
    (c : ℕ) (d : Display) → d.crt_pos < crt_size → Drawn d (cga_switch c d) (crt_size + 1)
unfolding cga_switch
cga_switch-Drawn c d h = elim (Bool-cases (c % 256 == 8)) [
  | inl e ↦ rw e (elim (Bool-cases (ltb 0 d.crt_pos)) [
    | inl f ↦ rw f (record {
      place = omega arith;
      outside = λ i far. update_ne d.crt_buf (d.crt_pos - 1) i (blank_of c) (omega arith);
    })
    | inr f ↦ rw f (record { place = omega arith; outside = λ i far. refl })
  ])
  | inr e ↦ rw e (elim (Bool-cases (c % 256 == b'\n')) [
    | inl f ↦ rw f (record { place = omega arith; outside = λ i far. refl })
    | inr f ↦ rw f (elim (Bool-cases (c % 256 == b'\r')) [
      | inl g ↦ rw g (record { place = omega arith; outside = λ i far. refl })
      | inr g ↦ rw g (record {
        place = omega arith;
        outside = λ i far. update_ne d.crt_buf d.crt_pos i (u16 c) (omega arith);
      })
    ])
  ])
]

scrolled_outside : (b : ℕ → ℕ) (i : ℕ) → crt_size ≤ i → scrolled b i ≡ b i
scrolled_outside b i h = rw (le→ltb i (crt_size - crt_cols) (omega arith), le→ltb i crt_size h) refl

scroll-Drawn : (d d' : Display) → Drawn d d' (crt_size + 1) → Drawn d (scroll d') crt_size
unfolding scroll
scroll-Drawn d d' h = elim (Bool-cases (leb crt_size d'.crt_pos)) [
  | inl e ↦ rw e (record {
    place = omega (arith, h.place, leb→le e);
    outside = λ i far. scrolled_outside d'.crt_buf i far ∙ h.outside i far;
  })
  | inr e ↦ rw e (record { place = leb→lt e; outside = h.outside })
]
  where
    leb→lt : leb crt_size d'.crt_pos ≡ false → d'.crt_pos < crt_size
    leb→lt e = ground arith

    leb→le : leb crt_size d'.crt_pos ≡ true → crt_size ≤ d'.crt_pos
    leb→le e = ground arith

-- The cursor is on the screen, the 6845 knows its place, and no memory behind the screen was written.
pub record OnScreen (d d' : Display) : Type 0 where
  pub place : d'.crt_pos < crt_size
  pub cursor_place : d'.cursor ≡ d'.crt_pos
  pub outside : (i : ℕ) → crt_size ≤ i → d'.crt_buf i ≡ d.crt_buf i

move_cursor-OnScreen : (d d' : Display) → Drawn d d' crt_size → OnScreen d (move_cursor d')
move_cursor-OnScreen d d' h = record {
  place = h.place;
  cursor_place = omega (arith, h.place);
  outside = h.outside;
}

cons_plain-OnScreen : (c : ℕ) (d : Display) → d.crt_pos < crt_size → OnScreen d (cons_plain c d)
cons_plain-OnScreen c d h =
    move_cursor-OnScreen d _
      (scroll-Drawn d _ (drawn (cga_switch-Drawn (with_attribute c) (ports_putc c d) h)))
  where
    drawn :
        Drawn (ports_putc c d) (cga_switch (with_attribute c) (ports_putc c d)) (crt_size + 1)
        → Drawn d (cga_switch (with_attribute c) (ports_putc c d)) (crt_size + 1)
    drawn t = record { place = t.place; outside = t.outside }

OnScreen-trans : (d e f : Display) → OnScreen d e → OnScreen e f → OnScreen d f
OnScreen-trans d e f h g = record {
  place = g.place;
  cursor_place = g.cursor_place;
  outside = λ i far. g.outside i far ∙ h.outside i far;
}

five_blanks-OnScreen : (d : Display) → d.crt_pos < crt_size → OnScreen d (five_blanks d)
five_blanks-OnScreen d h =
    let d1 = cons_plain b' ' d in
    let d2 = cons_plain b' ' d1 in
    let d3 = cons_plain b' ' d2 in
    let d4 = cons_plain b' ' d3 in
    let s1 = cons_plain-OnScreen b' ' d h in
    let s2 = cons_plain-OnScreen b' ' d1 s1.place in
    let s3 = cons_plain-OnScreen b' ' d2 s2.place in
    let s4 = cons_plain-OnScreen b' ' d3 s3.place in
    let s5 = cons_plain-OnScreen b' ' d4 s4.place in
    OnScreen-trans d d1 _ s1
      (OnScreen-trans d1 d2 _ s2 (OnScreen-trans d2 d3 _ s3 (OnScreen-trans d3 d4 _ s4 s5)))

-- With the cursor on the screen, whatever is printed, with any attribute: cons_putc leaves the cursor on
-- the screen and its place in the 6845, and writes no memory behind the screen's 2000 cells.
pub cons_putc-OnScreen : (c : ℕ) (d : Display) → d.crt_pos < crt_size → OnScreen d (cons_putc c d)
unfolding cons_putc cga_putc
cons_putc-OnScreen c d h = elim (Bool-cases (c % 256 == b'\t')) [
  | inl e ↦ rw e (tabbed (five_blanks-OnScreen (ports_putc c d) h))
  | inr e ↦ rw e (cons_plain-OnScreen c d h)
]
  where
    tabbed :
        OnScreen (ports_putc c d) (five_blanks (ports_putc c d))
        → OnScreen d (move_cursor (scroll (five_blanks (ports_putc c d))))
    tabbed t =
        move_cursor-OnScreen d _
          (scroll-Drawn d _ (record { place = omega (arith, t.place); outside = t.outside }))

cga_switch-serial : (c : ℕ) (d : Display) → (cga_switch c d).serial ≡ d.serial
unfolding cga_switch
cga_switch-serial c d = elim (Bool-cases (c % 256 == 8)) [
  | inl e ↦ rw e (elim (Bool-cases (ltb 0 d.crt_pos)) [ inl f ↦ rw f refl | inr f ↦ rw f refl ])
  | inr e ↦ rw e (elim (Bool-cases (c % 256 == b'\n')) [
    | inl f ↦ rw f refl
    | inr f ↦ rw f (elim (Bool-cases (c % 256 == b'\r')) [ inl g ↦ rw g refl | inr g ↦ rw g refl ])
  ])
]

scroll-serial : (d : Display) → (scroll d).serial ≡ d.serial
unfolding scroll
scroll-serial d = elim (Bool-cases (leb crt_size d.crt_pos)) [
  | inl e ↦ rw e refl
  | inr e ↦ rw e refl
]

cons_plain-serial : (c : ℕ) (d : Display) → (cons_plain c d).serial ≡ c % 256 ∷ d.serial
cons_plain-serial c d = scroll-serial _ ∙ cga_switch-serial (with_attribute c) (ports_putc c d)

-- The serial port is sent the low byte of what is printed, and, where it is a tab, the five blanks that the
-- screen shows in its place as well.
pub cons_putc-serial :
    (c : ℕ) (d : Display)
    → (cons_putc c d).serial ≡ (
        if c % 256 == b'\t'
        then b' ' ∷ b' ' ∷ b' ' ∷ b' ' ∷ b' ' ∷ c % 256 ∷ d.serial
        else c % 256 ∷ d.serial)
unfolding cons_putc cga_putc
cons_putc-serial c d = elim (Bool-cases (c % 256 == b'\t')) [
  | inl e ↦ rw e (scroll-serial _ ∙ blanks (ports_putc c d))
  | inr e ↦ rw e (cons_plain-serial c d)
]
  where
    put : List ℕ → List ℕ
    put l = b' ' ∷ l

    blanks : (d : Display) → (five_blanks d).serial ≡ b' ' ∷ b' ' ∷ b' ' ∷ b' ' ∷ b' ' ∷ d.serial
    blanks d =
        cons_plain-serial b' ' _
        ∙ ap put (
            cons_plain-serial b' ' _
            ∙ ap put (
                cons_plain-serial b' ' _
                ∙ ap put (cons_plain-serial b' ' _ ∙ ap put (cons_plain-serial b' ' d))))
