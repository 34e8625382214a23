-- ===== src/Monitor/Editing.antt =====
-- readline of lib/readline.c edits a line, and keeps to its buffer.
use lab3a.Base.{
  ℕ, ◌+◌, ◌-◌, ◌%◌, ◌<◌, ◌≤◌, ◌≡◌, ◌⊎◌, ◌∙◌, Bool, ◌==◌, ltb, leb, ◌&&◌, ◌||◌, if◌then◌else◌, List,
  [], ◌∷◌, length, arith, update, Bool-cases, ◌≢◌, false, inl, inr, true, update_ne, update_self,
  refl, suc, ◌++◌,
}
use lab3a.Mmu.{is_negative}
use lab3a.Strings.{Bytes}
use lab3a.Monitor.{
  waiting, Editor, is_erase, buflen, Key, read_key, again, enter, failed, Line, read_loop, readline,
  after_key, line, read_error,
}

-- The reference editor: the characters of the line, the last one in front.
abbrev pub edit : ℕ → List ℕ → List ℕ
edit c [] = if leb b' ' c then c ∷ [] else []
edit c (d ∷ ds) =
    if is_erase c
    then ds
    else if leb b' ' c && ltb (length (d ∷ ds)) (buflen - 1)
    then c ∷ d ∷ ds
    else d ∷ ds

abbrev pub ends_line : ℕ → Bool
ends_line c = (c == b'\n') || (c == b'\r')

-- What is typed: a line, read to its end; an error; or not enough.
pub data Typed : Type 0 where
  typed : List ℕ → Typed
  broken : ℕ → Typed
  unended : Typed

abbrev pub edited : List ℕ → List ℕ → Typed
edited ds [] = unended
edited ds (c ∷ cs) =
    let rest = edited (edit c ds) cs in
    if is_negative c then broken c else if ends_line c then typed ds else rest

-- The characters stand in the buffer, the last one in front.
abbrev pub Holds : Bytes → ℕ → List ℕ → Type 0
Holds mem buf [] = Unit
Holds mem buf (d ∷ ds) = (mem (buf + length ds) ≡ d % 256) × Holds mem buf ds

Holds-frame :
    (mem mem' : Bytes) (buf : ℕ) (ds : List ℕ)
    → ((q : ℕ) → q < buf + length ds → mem' q ≡ mem q)
    → Holds mem buf ds
    → Holds mem' buf ds
Holds-frame mem mem' buf [] same h = tt
Holds-frame mem mem' buf (d ∷ ds) same (here, h) = (
  same (buf + length ds) (omega arith) ∙ here,
  Holds-frame mem mem' buf ds (λ q l. same q (omega arith)) h,
)

-- The editor holds the line, in its buffer, and touched nothing else.
record State (buf : ℕ) (mem₀ : Bytes) (ds : List ℕ) (e : Editor) : Type 0 where
  count : e.i ≡ length ds
  room : length ds ≤ buflen - 1
  text : Holds e.mem buf ds
  outside : (q : ℕ) → (q < buf) ⊎ (buf + buflen ≤ q) → e.mem q ≡ mem₀ q

-- The line in the buffer, a NUL behind it, nothing else touched.
pub record Ended (buf : ℕ) (mem₀ : Bytes) (ds : List ℕ) (mem : Bytes) : Type 0 where
  pub room : length ds < buflen
  pub text : Holds mem buf ds
  pub nul : mem (buf + length ds) ≡ 0
  pub outside : (q : ℕ) → (q < buf) ⊎ (buf + buflen ≤ q) → mem q ≡ mem₀ q

module _ (buf : ℕ) (mem₀ : Bytes) where
  abbrev Follows : List ℕ → ℕ → Key → Type 0
  Follows ds c (again e) =
      (is_negative c ≡ false) × (ends_line c ≡ false) × State buf mem₀ (edit c ds) e
  Follows ds c (enter e) = (is_negative c ≡ false) × (ends_line c ≡ true) × Ended buf mem₀ ds e.mem
  Follows ds c (failed d) = (is_negative c ≡ true) × (d ≡ c)

  push :
      (ds : List ℕ) (c : ℕ) (e : Editor) (echo : List ℕ)
      → State buf mem₀ ds e
      → length ds < buflen - 1
      → State buf mem₀
          (c ∷ ds)
          (record { mem = update e.mem (buf + e.i) (c % 256); i = e.i + 1; echo = echo })
  push ds c e echo s h = record {
    count = omega (arith, s.count);
    room = h;
    text = (
      rw s.count (update_self e.mem (buf + length ds) (c % 256)),
      Holds-frame e.mem (update e.mem (buf + e.i) (c % 256)) buf ds
          (λ q l. update_ne e.mem (buf + e.i) q (c % 256) (omega (arith, s.count))) s.text,
    );
    outside = λ q o. update_ne e.mem (buf + e.i) q (c % 256) (apart q o) ∙ s.outside q o;
  }
    where
      apart : (q : ℕ) → (q < buf) ⊎ (buf + buflen ≤ q) → q ≢ buf + e.i
      apart q o = elim o [ inl l ↦ omega arith | inr l ↦ omega (arith, s.count) ]

  stop :
      (ds : List ℕ) (e : Editor)
      → State buf mem₀ ds e
      → Ended buf mem₀ ds (update e.mem (buf + e.i) 0)
  stop ds e s = record {
    room = omega (arith, s.room);
    text =
        Holds-frame e.mem (update e.mem (buf + e.i) 0) buf ds
          (λ q l. update_ne e.mem (buf + e.i) q 0 (omega (arith, s.count))) s.text;
    nul = rw s.count (update_self e.mem (buf + length ds) 0);
    outside = λ q o. update_ne e.mem (buf + e.i) q 0 (apart q o) ∙ s.outside q o;
  }
    where
      apart : (q : ℕ) → (q < buf) ⊎ (buf + buflen ≤ q) → q ≢ buf + e.i
      apart q o = elim o [ inl l ↦ omega arith | inr l ↦ omega (arith, s.count, s.room) ]

  erase_goes_on : (c i : ℕ) → (is_erase c && ltb 0 i) ≡ true → ends_line c ≡ false
  erase_goes_on c i h = ground arith

  add_goes_on : (c i : ℕ) → (leb b' ' c && ltb i (buflen - 1)) ≡ true → ends_line c ≡ false
  add_goes_on c i h = ground arith

  erased :
      (ds : List ℕ) (c : ℕ) (e : Editor)
      → State buf mem₀ ds e
      → (is_erase c && ltb 0 e.i) ≡ true
      → State buf mem₀ (edit c ds) (record e { i = e.i - 1; echo = e.echo ++ (8 ∷ []) })
  erased [] c e s h = absurd (nonempty e.i s.count h)
    where
      nonempty : (i : ℕ) → i ≡ 0 → (is_erase c && ltb 0 i) ≡ true → ⊥
      nonempty i z h = ground arith
  erased (d ∷ ds) c e s h =
      let erase : is_erase c ≡ true = ground arith in
      rw erase (record {
        count = omega (arith, s.count);
        room = omega (arith, s.room);
        text = s.text.1;
        outside = s.outside;
      })

  edit_push :
      (ds : List ℕ) (c i : ℕ)
      → i ≡ length ds
      → (is_erase c && ltb 0 i) ≡ false
      → (leb b' ' c && ltb i (buflen - 1)) ≡ true
      → edit c ds ≡ c ∷ ds
  edit_push [] c i z keep add = let wide : leb b' ' c ≡ true = ground arith in rw wide refl
  edit_push (d ∷ ds) c i n keep add =
      let plain : is_erase c ≡ false = ground arith in
      let wide : leb b' ' c ≡ true = ground arith in
      let room : ltb (suc (length ds)) 1023 ≡ true = ground arith in rw (plain, wide, room) refl

  edit_keep :
      (ds : List ℕ) (c i : ℕ)
      → i ≡ length ds
      → (is_erase c && ltb 0 i) ≡ false
      → (leb b' ' c && ltb i (buflen - 1)) ≡ false
      → edit c ds ≡ ds
  edit_keep [] c i z keep full = let low : leb b' ' c ≡ false = ground arith in rw low refl
  edit_keep (d ∷ ds) c i n keep full =
      let plain : is_erase c ≡ false = ground arith in
      let none_left : (leb b' ' c && ltb (suc (length ds)) 1023) ≡ false = ground arith in
      rw (plain, none_left) refl

  added :
      (ds : List ℕ) (c : ℕ) (e : Editor)
      → State buf mem₀ ds e
      → (is_erase c && ltb 0 e.i) ≡ false
      → (leb b' ' c && ltb e.i (buflen - 1)) ≡ true
      → State buf mem₀ (edit c ds) (record {
        mem = update e.mem (buf + e.i) (c % 256);
        i = e.i + 1;
        echo = e.echo ++ (c ∷ []);
      })
  added ds c e s keep add =
      rw (edit_push ds c e.i s.count keep add)
        (push ds c e (e.echo ++ (c ∷ [])) s (below e.i s.count add))
    where
      below :
          (i : ℕ)
          → i ≡ length ds
          → (leb b' ' c && ltb i (buflen - 1)) ≡ true
          → length ds < buflen - 1
      below i n h = ground arith

  kept :
      (ds : List ℕ) (c : ℕ) (e : Editor)
      → State buf mem₀ ds e
      → (is_erase c && ltb 0 e.i) ≡ false
      → (leb b' ' c && ltb e.i (buflen - 1)) ≡ false
      → State buf mem₀ (edit c ds) e
  kept ds c e s keep full = rw (edit_keep ds c e.i s.count keep full) s

  read_key-Follows :
      (ds : List ℕ) (c : ℕ) (e : Editor) → State buf mem₀ ds e → Follows ds c (read_key buf c e)
  unfolding read_key
  read_key-Follows ds c e s = elim (Bool-cases (is_negative c)) [
    | inl neg ↦ rw neg (neg, refl)
    | inr pos ↦ rw pos (elim (Bool-cases (is_erase c && ltb 0 e.i)) [
      | inl erase ↦ rw erase (pos, erase_goes_on c e.i erase, erased ds c e s erase)
      | inr keep ↦ rw keep (elim (Bool-cases (leb b' ' c && ltb e.i (buflen - 1))) [
        | inl add ↦ rw add (pos, add_goes_on c e.i add, added ds c e s keep add)
        | inr full ↦ rw full (elim (Bool-cases (ends_line c)) [
          | inl end ↦ rw end (pos, end, stop ds e s)
          | inr other ↦ rw other (pos, other, kept ds c e s keep full)
        ])
      ])
    ])
  ]

  -- What readline returns, against what was typed.
  abbrev pub Agrees : Typed → Line → Type 0
  Agrees (typed ds) (line mem echo) = Ended buf mem₀ ds mem
  Agrees (broken c) (read_error d) = d ≡ c
  Agrees unended waiting = Unit
  Agrees _ _ = ⊥

  step :
      (cs : List ℕ) (c : ℕ) (ds : List ℕ) (k : Key)
      → ((e : Editor)
          → State buf mem₀ (edit c ds) e
          → Agrees (edited (edit c ds) cs) (read_loop buf cs e))
      → Follows ds c k
      → Agrees (edited ds (c ∷ cs)) (after_key (read_loop buf cs) k)
  step cs c ds (again e) ih (pos, other, s) = rw (pos, other) (ih e s)
  step cs c ds (enter e) ih (pos, end, s) = rw (pos, end) s
  step cs c ds (failed d) ih (neg, same) = rw neg same

  read_loop-Agrees :
      (cs ds : List ℕ) (e : Editor)
      → State buf mem₀ ds e
      → Agrees (edited ds cs) (read_loop buf cs e)
  unfolding read_loop
  read_loop-Agrees [] ds e s = tt
  read_loop-Agrees (c ∷ cs) ds e s =
      step cs c ds (read_key buf c e) (λ e' s'. read_loop-Agrees cs (edit c ds) e' s')
        (read_key-Follows ds c e s)

-- readline edits its line as the reference editor does, whatever is typed: the characters that it leaves
-- are those that were typed and not erased again, at most 1023 of them, a NUL stands behind them, and no
-- memory outside the 1024 bytes of its buffer is written. It returns at the first line end, gives up at the
-- first negative value, and otherwise waits.
pub readline-Agrees :
    (buf : ℕ) (mem : Bytes) (cs : List ℕ) → Agrees buf mem (edited [] cs) (readline buf mem cs)
unfolding readline
readline-Agrees buf mem cs =
    read_loop-Agrees buf mem cs [] (record { mem = mem; i = 0; echo = [] })
      (record { count = refl; room = omega arith; text = tt; outside = λ q o. refl })
