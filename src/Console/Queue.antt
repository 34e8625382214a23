-- ===== src/Console/Queue.antt =====
-- The circular input buffer of kern/console.c as a queue of characters.
use lab3a.Machine.Runs.{Returns}
use lab3a.Base.{
  ℕ, zero, suc, ◌+◌, ◌-◌, ◌%◌, ◌<◌, ◌≤◌, ◌≡◌, ◌≢◌, refl, sym, ap, ◌∙◌, List, [], ◌∷◌, ◌++◌, length,
  arith, ap₂, ◌==◌, if◌then◌else◌, update, ==_ne, ==_self, Bool-cases, inl, inr, update_ne, ap₂,
  append-nil, append_assoc, subst, length-append,
}
use lab3a.Machine.{done, Kernel, Cons}
use lab3a.Console.{next_pos, cons_put, cons_intr, cons_getc}

-- `n` characters from the position `r` on, round the end of the buffer.
pub items : (ℕ → ℕ) → ℕ → ℕ → List ℕ
items buf r zero = []
items buf r (suc n) = buf r ∷ items buf (next_pos r) n

abbrev pub count : Cons → ℕ
count s = (s.wpos + 512 - s.rpos) % 512

-- The characters that wait, the oldest first.
abbrev pub waiting : Cons → List ℕ
waiting s = items s.buf s.rpos (count s)

-- Both positions lie in the buffer.
abbrev pub InBuffer : Cons → Type 0
InBuffer s = (s.rpos < 512) × (s.wpos < 512)

-- What of the delivered characters is kept: zeros are dropped, and a character is a byte.
abbrev pub kept_chars : List ℕ → List ℕ
kept_chars [] = []
kept_chars (c ∷ cs) = if c == 0 then kept_chars cs else c % 256 ∷ kept_chars cs

items-update :
    (buf : ℕ → ℕ) (n r v : ℕ)
    → r < 512
    → n < 512
    → items (update buf ((r + n) % 512) v) r (suc n) ≡ items buf r n ++ (v ∷ [])
unfolding items
items-update buf zero r v hr hn = let e : (r + 0) % 512 ≡ r = omega arith in rw (e, ==_self r) refl
items-update buf (suc n) r v hr hn =
    let place : (r + suc n) % 512 ≡ (next_pos r + n) % 512 = ground arith in
    let rest = items-update buf n (next_pos r) v (ground arith) (omega arith) in
    ap₂ (λ (x : ℕ) (xs : List ℕ). x ∷ xs) (update_ne buf _ r v (omega arith))
      (ap (λ (w : ℕ). items (update buf w v) (next_pos r) (suc n)) place ∙ rest)

length-items : (buf : ℕ → ℕ) (n r : ℕ) → length (items buf r n) ≡ n
unfolding items
length-items buf zero r = refl
length-items buf (suc n) r = omega (arith, length-items buf n (next_pos r))

module _ (c : ℕ) (s : Cons) (inside : InBuffer s) where
  cons_put-InBuffer : InBuffer (cons_put c s)
  cons_put-InBuffer = ground arith

  waiting-cons_put : c ≢ 0 → count s < 511 → waiting (cons_put c s) ≡ waiting s ++ (c % 256 ∷ [])
  waiting-cons_put ne room =
      let more : (next_pos s.wpos + 512 - s.rpos) % 512 ≡ suc (count s) = ground arith in
      let place : s.wpos ≡ (s.rpos + count s) % 512 = omega arith in
      rw (==_ne c 0 ne, more)
        (ap (λ (w : ℕ). items (update s.buf w (c % 256)) s.rpos (suc (count s))) place
          ∙ items-update s.buf (count s) s.rpos (c % 256) inside.0 (omega arith))

  -- A character that is put into a buffer with 511 waiting ones empties it.
  pub waiting-cons_put_full : c ≢ 0 → count s ≡ 511 → waiting (cons_put c s) ≡ []
  unfolding items
  waiting-cons_put_full ne full =
      let none_left : (next_pos s.wpos + 512 - s.rpos) % 512 ≡ 0 = ground arith in
      rw (==_ne c 0 ne, none_left) refl

-- The buffer after the characters `cs`, without the other state.
abbrev pub put_all : List ℕ → Cons → Cons
put_all [] s = s
put_all (c ∷ cs) s = put_all cs (cons_put c s)

cons_intr-ok :
    (cs : List ℕ) (k : Kernel) → cons_intr cs k ≡ done tt (record k { cons = put_all cs k.cons })
unfolding cons_intr
cons_intr-ok [] k = refl
cons_intr-ok (c ∷ cs) k = cons_intr-ok cs (record k { cons = cons_put c k.cons })

waiting-put_all :
    (cs : List ℕ) (s : Cons)
    → InBuffer s
    → count s + length (kept_chars cs) ≤ 511
    → InBuffer (put_all cs s) × (waiting (put_all cs s) ≡ waiting s ++ kept_chars cs)
waiting-put_all [] s inside room = (inside, sym (append-nil (waiting s)))
waiting-put_all (c ∷ cs) s inside room = elim (Bool-cases (c == 0)) [
  | inl z ↦
      let same : cons_put c s ≡ s = rw z refl in
      let rest = waiting-put_all cs s inside (rw (z) at room) in
      rw z (
        subst
          (λ (t : Cons).
            InBuffer (put_all cs t) × (waiting (put_all cs t) ≡ waiting s ++ kept_chars cs))
          (sym same) rest)
  | inr z ↦
      let ne : c ≢ 0 = ground arith in
      let room' : count s + suc (length (kept_chars cs)) ≤ 511 = rw (z) at room in
      let put = waiting-cons_put c s inside ne (omega arith) in
      let more : count (cons_put c s) ≡ suc (count s) = ground arith in
      let rest = waiting-put_all cs (cons_put c s) (cons_put-InBuffer c s inside) (omega arith) in
      (
        rest.0,
        rest.1
            ∙ ap (λ (l : List ℕ). l ++ kept_chars cs) put
            ∙ append_assoc (waiting s) (c % 256 ∷ []) (kept_chars cs)
            ∙ rw z refl,
      )
]

-- What cons_getc returns and leaves of the characters that wait.
abbrev pub first_or : List ℕ → ℕ
first_or [] = 0
first_or (c ∷ cs) = c

abbrev pub others : List ℕ → List ℕ
others [] = []
others (c ∷ cs) = cs

-- cons_getc once it has polled.
take_char : Cons → ℕ × Cons
take_char s =
    if s.rpos == s.wpos then (0, s) else (s.buf s.rpos, record s { rpos = next_pos s.rpos })

take_char-waiting :
    (s : Cons)
    → InBuffer s
    → ((take_char s).0 ≡ first_or (waiting s))
      × (waiting (take_char s).1 ≡ others (waiting s))
      × InBuffer (take_char s).1
unfolding take_char items
take_char-waiting s inside = elim (Bool-cases (s.rpos == s.wpos)) [
  | inl e ↦ let none_left : count s ≡ 0 = ground arith in rw (e, none_left) (refl, refl, inside)
  | inr e ↦
      let one : count s ≡ suc ((s.wpos + 512 - next_pos s.rpos) % 512) = ground arith in
      rw (e, one) (refl, refl, ground arith)
]

cons_getc-ok :
    (serial kbd : List ℕ) (k : Kernel)
    → let s = put_all kbd (put_all serial k.cons) in
      cons_getc serial kbd k ≡ done (take_char s).0 (record k { cons = (take_char s).1 })
unfolding cons_getc take_char
cons_getc-ok serial kbd k =
    rw (cons_intr-ok serial k, cons_intr-ok kbd (record k { cons = put_all serial k.cons }))
      (ground arith)

-- The characters that cons_getc chooses from: those that wait, then what the polls deliver.
abbrev pub queue : List ℕ → List ℕ → Cons → List ℕ
queue serial kbd s = (waiting s ++ kept_chars serial) ++ kept_chars kbd

polled :
    (serial kbd : List ℕ) (s : Cons)
    → InBuffer s
    → count s + length (kept_chars serial) + length (kept_chars kbd) ≤ 511
    → let t = put_all kbd (put_all serial s) in InBuffer t × (waiting t ≡ queue serial kbd s)
polled serial kbd s inside room =
    let first = waiting-put_all serial s inside (omega arith) in
    let full : count (put_all serial s) ≡ count s + length (kept_chars serial) =
      sym (length-items (put_all serial s).buf (count (put_all serial s)) (put_all serial s).rpos)
      ∙ ap (λ (l : List ℕ). length l) first.1
      ∙ length-append (waiting s) (kept_chars serial)
      ∙ ap (λ (n : ℕ). n + length (kept_chars serial)) (length-items s.buf (count s) s.rpos) in
    let second = waiting-put_all kbd (put_all serial s) first.0 (omega (arith, full)) in
    (second.0, second.1 ∙ ap (λ (l : List ℕ). l ++ kept_chars kbd) first.1)

-- Where the buffer has room, 511 characters in all, for what the serial port and the keyboard
-- deliver, cons_getc returns the oldest character of the waiting ones followed by the non-zero
-- delivered ones, as bytes, or 0 when there is none, and leaves the others waiting in order.
pub cons_getc-queue :
    (serial kbd : List ℕ) (k : Kernel)
    → InBuffer k.cons
    → count k.cons + length (kept_chars serial) + length (kept_chars kbd) ≤ 511
    → Returns
        (λ r k'.
          (r ≡ first_or (queue serial kbd k.cons))
          × (waiting k'.cons ≡ others (queue serial kbd k.cons))
          × InBuffer k'.cons)
        (cons_getc serial kbd k)
cons_getc-queue serial kbd k inside room =
    let t = polled serial kbd k.cons inside room in
    let taken = take_char-waiting (put_all kbd (put_all serial k.cons)) t.0 in
    rw (cons_getc-ok serial kbd k) (taken.0 ∙ ap first_or t.1, taken.1 ∙ ap others t.1, taken.2)

-- The 512th waiting character makes the two positions equal: with 511 waiting, one more delivered by
-- the serial port and none by the keyboard, cons_getc returns 0 and none is left.
pub cons_getc_overflow :
    (c : ℕ) (k : Kernel)
    → InBuffer k.cons
    → c ≢ 0
    → count k.cons ≡ 511
    → Returns (λ r k'. (r ≡ 0) × (waiting k'.cons ≡ [])) (cons_getc (c ∷ []) [] k)
cons_getc_overflow c k inside ne full =
    let empty = waiting-cons_put_full c k.cons inside ne full in
    let taken = take_char-waiting (cons_put c k.cons) (cons_put-InBuffer c k.cons inside) in
    rw (cons_getc-ok (c ∷ []) [] k) (taken.0 ∙ ap first_or empty, taken.1 ∙ ap others empty)
