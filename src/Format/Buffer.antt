-- ===== src/Format/Buffer.antt =====
-- vsnprintf of lib/printfmt.c keeps within its buffer, and vcprintf of kern/printf.c counts nothing.
use lab3a.Base.{
  ℕ, zero, suc, ◌+◌, ◌-◌, ◌%◌, ◌^◌, ◌<◌, ◌≡◌, ◌≢◌, ◌⊎◌, inl, inr, refl, ◌∙◌, Bool-cases, ltb, ◌==◌,
  List, [], ◌∷◌, ◌++◌, length, take, update, update_self, update_ne, arith, append_assoc,
  append-nil, false, lt→ltb, subst, ◌≤◌, le→ltb, sym,
}
use lab3a.Mmu.{u32, is_negative}
use lab3a.Strings.{Bytes}
use lab3a.Format.Run.{Sprintbuf, sprintputch, put_all, terminated, vsnprintf, put_console, vcprintf}

-- The characters, cut to bytes, and a NUL behind them stand at `dst`.
abbrev pub StandsAt : Bytes → ℕ → List ℕ → Type 0
StandsAt mem dst [] = mem dst ≡ 0
StandsAt mem dst (c ∷ cs) = (mem dst ≡ c % 256) × StandsAt mem (dst + 1) cs

-- They stand there, and no other place is written.
pub record Stored (mem : Bytes) (dst : ℕ) (cs : List ℕ) (mem' : Bytes) : Type 0 where
  pub text : StandsAt mem' dst cs
  pub outside : (q : ℕ) → (q < dst) ⊎ (dst + length cs < q) → mem' q ≡ mem q

Stored-nil : (mem : Bytes) (dst : ℕ) → Stored mem dst [] (update mem dst 0)
Stored-nil mem dst = record {
  text = update_self mem dst 0;
  outside = λ q o. elim o [
    | inl l ↦ update_ne mem dst q 0 (omega arith)
    | inr l ↦ update_ne mem dst q 0 (omega arith)
  ];
}

Stored-cons :
    (mem mem' : Bytes) (dst c : ℕ) (cs : List ℕ)
    → Stored (update mem dst (c % 256)) (dst + 1) cs mem'
    → Stored mem dst (c ∷ cs) mem'
Stored-cons mem mem' dst c cs h = record {
  text = (h.outside dst (inl (omega arith)) ∙ update_self mem dst (c % 256), h.text);
  outside = λ q o. elim o [
    | inl l ↦ h.outside q (inl (omega arith)) ∙ update_ne mem dst q (c % 256) (omega arith)
    | inr l ↦ h.outside q (inr (omega arith)) ∙ update_ne mem dst q (c % 256) (omega arith)
  ];
}

abbrev with_count : Sprintbuf → Sprintbuf
with_count b = record b { cnt = u32 (b.cnt + 1) }

abbrev with_char : ℕ → Sprintbuf → Sprintbuf
with_char c b = record b {
  mem = update b.mem b.buf (c % 256);
  buf = b.buf + 1;
  cnt = u32 (b.cnt + 1);
}

sprintputch_full : (c : ℕ) (b : Sprintbuf) → b.ebuf ≤ b.buf → sprintputch c b ≡ with_count b
unfolding sprintputch
sprintputch_full c b h = rw (le→ltb b.buf b.ebuf h) refl

sprintputch_room : (c : ℕ) (b : Sprintbuf) → b.buf < b.ebuf → sprintputch c b ≡ with_char c b
unfolding sprintputch
sprintputch_room c b h = rw (lt→ltb b.buf b.ebuf h) refl

put_all-Stored :
    (out : List ℕ) (room : ℕ) (b : Sprintbuf)
    → b.ebuf ≡ b.buf + room
    → Stored b.mem b.buf (take room out) (terminated (put_all out b)).0
put_all-Stored [] zero b e = Stored-nil b.mem b.buf
put_all-Stored [] (suc room) b e = Stored-nil b.mem b.buf
put_all-Stored (c ∷ cs) zero b e =
    subst (λ (s : Sprintbuf). Stored b.mem b.buf [] (terminated (put_all cs s)).0)
      (sym (sprintputch_full c b (omega arith))) (put_all-Stored cs zero (with_count b) e)
put_all-Stored (c ∷ cs) (suc room) b e =
    subst (λ (s : Sprintbuf). Stored b.mem b.buf (c ∷ take room cs) (terminated (put_all cs s)).0)
      (sym (sprintputch_room c b (omega arith)))
      (Stored-cons b.mem _ b.buf c (take room cs)
        (put_all-Stored cs room (with_char c b) (omega arith)))

sprintputch-cnt : (c : ℕ) (b : Sprintbuf) → (sprintputch c b).cnt ≡ u32 (b.cnt + 1)
unfolding sprintputch
sprintputch-cnt c b = elim (Bool-cases (ltb b.buf b.ebuf)) [ inl e ↦ rw e refl | inr e ↦ rw e refl ]

put_all-cnt :
    (out : List ℕ) (b : Sprintbuf) → b.cnt < 2 ^ 32 → (put_all out b).cnt ≡ u32 (b.cnt + length out)
put_all-cnt [] b h = omega arith
put_all-cnt (c ∷ cs) b h =
    let step = sprintputch-cnt c b in put_all-cnt cs (sprintputch c b) (omega arith) ∙ (omega arith)

-- For a buffer that is not NULL and a size n + 1 below 2 ^ 31: whatever vprintfmt prints, vsnprintf leaves
-- its first n characters and a NUL in the buffer, writes nothing in front of the buffer nor behind the
-- NUL, and so nothing behind the buffer's end, and returns how many characters there were, those that were
-- cut off counted.
pub vsnprintf-Stored :
    (mem : Bytes) (buf n : ℕ) (out : List ℕ)
    → buf ≢ 0
    → n + 1 < 2 ^ 31
    → Stored mem buf (take n out) (vsnprintf mem buf (n + 1) out).0
      × ((vsnprintf mem buf (n + 1) out).1 ≡ u32 (length out))
unfolding vsnprintf
vsnprintf-Stored mem buf n out ne small =
    let given : (buf == 0) ≡ false = ground arith in
    let positive : is_negative (n + 1) ≡ false = ground arith in
    let some_room : (n + 1 == 0) ≡ false = ground arith in
    let b : Sprintbuf = record { mem = mem; buf = buf; ebuf = buf + (n + 1) - 1; cnt = 0 } in
    rw (given, positive, some_room)
      (
        put_all-Stored out n b (omega arith),
        put_all-cnt out b (omega arith)
            ∙ (let z : 0 + length out ≡ length out = omega arith in rw z refl),
      )

-- kern/printf.c: every character reaches the console, in order, and the count that vcprintf returns, and
-- cprintf with it, is 0 whatever was printed.
pub vcprintf_lem : (console out : List ℕ) → vcprintf console out ≡ (console ++ out, 0)
unfolding vcprintf
vcprintf_lem console out = go out console
  where
    go : (out console : List ℕ) → put_console out (console, 0) ≡ (console ++ out, 0)
    go [] console = rw (append-nil console) refl
    go (c ∷ cs) console = go cs (console ++ (c ∷ [])) ∙ rw (append_assoc console (c ∷ []) cs) refl
