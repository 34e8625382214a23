-- ===== src/Format/Batches.antt =====
-- vcprintf of lib/printf.c, which the programs use: the characters go to the kernel in batches of at
-- most 255, each by one sys_cputs.
use lab3a.Base.{
  ℕ, zero, suc, ◌+◌, ◌-◌, ◌%◌, ◌<◌, ◌≤◌, ◌≡◌, refl, sym, ◌∙◌, ◌==◌, if◌then◌else◌, List, [], ◌∷◌,
  ◌++◌, length, All, map, update, update_ne, arith, append_assoc, length-append, ap, false, subst,
  update_self, Bool-cases, append-nil, inl, inr,
}
use lab3a.Mmu.{u32}

-- struct printbuf, and the texts of the system calls so far.
pub record Printbuf : Type 0 where
  pub idx : ℕ
  pub cnt : ℕ
  pub buf : ℕ → ℕ
  pub batches : List (List ℕ)

-- The first n places of the buffer.
abbrev pub held : (ℕ → ℕ) → ℕ → List ℕ
held buf zero = []
held buf (suc n) = held buf n ++ (buf n ∷ [])

-- sys_cputs(b->buf, b->idx)
abbrev pub flush : Printbuf → Printbuf
flush b = record b { batches = b.batches ++ (held b.buf b.idx ∷ []) }

unfoldable pub putch_batch : ℕ → Printbuf → Printbuf
putch_batch ch b =
    let b' = record b { buf = update b.buf b.idx (ch % 256); idx = b.idx + 1 } in
    if b'.idx == 256 - 1
    then record (flush b') { idx = 0; cnt = u32 (b.cnt + 1) }
    else record b' { cnt = u32 (b.cnt + 1) }

abbrev pub put_batches : List ℕ → Printbuf → Printbuf
put_batches [] b = b
put_batches (c ∷ cs) b = put_batches cs (putch_batch c b)

-- vcprintf of lib/printf.c, behind what vprintfmt prints, with whatever the buffer held before: the
-- system calls, and what is returned
unfoldable pub user_vcprintf : (ℕ → ℕ) → List ℕ → List (List ℕ) × ℕ
user_vcprintf buf out =
    let b = flush (put_batches out (record { idx = 0; cnt = 0; buf = buf; batches = [] })) in
    (b.batches, b.cnt)

abbrev pub concat : List (List ℕ) → List ℕ
concat [] = []
concat (l ∷ ls) = l ++ concat ls

abbrev pub IsBatch : List ℕ → Type 0
IsBatch l = length l < 256

concat-append : (ls ms : List (List ℕ)) → concat (ls ++ ms) ≡ concat ls ++ concat ms
concat-append [] ms = refl
concat-append (l ∷ ls) ms = rw (concat-append ls ms) (sym (append_assoc l (concat ls) (concat ms)))

All-append :
    (ls : List (List ℕ)) (l : List ℕ) → All IsBatch ls → IsBatch l → All IsBatch (ls ++ (l ∷ []))
All-append [] l h b = (b, tt)
All-append (k ∷ ls) l h b = (h.0, All-append ls l h.1 b)

held-update : (buf : ℕ → ℕ) (n i v : ℕ) → n ≤ i → held (update buf i v) n ≡ held buf n
held-update buf zero i v h = refl
held-update buf (suc n) i v h =
    rw (held-update buf n i v (omega arith), update_ne buf i n v (omega arith)) refl

length-held : (buf : ℕ → ℕ) (n : ℕ) → length (held buf n) ≡ n
length-held buf zero = refl
length-held buf (suc n) =
    length-append (held buf n) (buf n ∷ []) ∙ (let e = length-held buf n in omega arith)

abbrev pub low : ℕ → ℕ
low c = c % 256

-- The characters so far are in the batches and the buffer, which has room.
record Sent (cs : List ℕ) (b : Printbuf) : Type 0 where
  room : b.idx < 255
  text : concat b.batches ++ held b.buf b.idx ≡ map low cs
  sizes : All IsBatch b.batches
  count : b.cnt ≡ u32 (length cs)

map-snoc : (cs : List ℕ) (c : ℕ) → map low (cs ++ (c ∷ [])) ≡ map low cs ++ (low c ∷ [])
map-snoc [] c = refl
map-snoc (d ∷ cs) c = ap (λ (l : List ℕ). low d ∷ l) (map-snoc cs c)

module _ (cs : List ℕ) (c : ℕ) (b : Printbuf) (s : Sent cs b) where
  abbrev pushed : ℕ → ℕ
  pushed = update b.buf b.idx (c % 256)

  pushed_text : concat b.batches ++ held pushed (b.idx + 1) ≡ map low (cs ++ (c ∷ []))
  pushed_text =
      ap (λ (n : ℕ). concat b.batches ++ held pushed n) next
      ∙ ap (λ (l : List ℕ). concat b.batches ++ l) last
      ∙ sym (append_assoc (concat b.batches) (held b.buf b.idx) (low c ∷ []))
      ∙ ap (λ (l : List ℕ). l ++ (low c ∷ [])) s.text
      ∙ sym (map-snoc cs c)
    where
      next : b.idx + 1 ≡ suc b.idx
      next = omega arith

      last : held pushed (suc b.idx) ≡ held b.buf b.idx ++ (low c ∷ [])
      last =
          rw
            (
              held-update b.buf b.idx b.idx (c % 256) (omega arith),
              update_self b.buf b.idx (c % 256),
            )
            refl

  next_count : u32 (b.cnt + 1) ≡ u32 (length (cs ++ (c ∷ [])))
  next_count = let e = length-append cs (c ∷ []) in omega (arith, s.count)

  putch_batch-Sent : Sent (cs ++ (c ∷ [])) (putch_batch c b)
  unfolding putch_batch
  putch_batch-Sent = elim (Bool-cases (b.idx + 1 == 255)) [
    | inl full ↦ rw full (record {
      room = omega arith;
      text =
          append-nil (concat (b.batches ++ (held pushed (b.idx + 1) ∷ [])))
          ∙ concat-append b.batches (held pushed (b.idx + 1) ∷ [])
          ∙ ap (λ (l : List ℕ). concat b.batches ++ l) (append-nil (held pushed (b.idx + 1)))
          ∙ pushed_text;
      sizes =
          All-append b.batches (held pushed (b.idx + 1)) s.sizes
            (let e = length-held pushed (b.idx + 1) in omega (arith, s.room));
      count = next_count;
    })
    | inr more ↦ rw more (record {
      room = below s.room more;
      text = pushed_text;
      sizes = s.sizes;
      count = next_count;
    })
  ]
    where
      below : b.idx < 255 → (b.idx + 1 == 255) ≡ false → b.idx + 1 < 255
      below h e = ground arith

put_batches-Sent :
    (out cs : List ℕ) (b : Printbuf) → Sent cs b → Sent (cs ++ out) (put_batches out b)
put_batches-Sent [] cs b s = subst (λ (l : List ℕ). Sent l b) (sym (append-nil cs)) s
put_batches-Sent (c ∷ out) cs b s =
    subst (λ (l : List ℕ). Sent l (put_batches (c ∷ out) b)) (append_assoc cs (c ∷ []) out)
      (put_batches-Sent out (cs ++ (c ∷ [])) (putch_batch c b) (putch_batch-Sent cs c b s))

-- What a program prints reaches the kernel whole and in order, each character cut to a byte, in system
-- calls of at most 255 characters each, whatever vprintfmt prints and the buffer held; vcprintf returns
-- the number of characters.
pub user_vcprintf_lem :
    (buf : ℕ → ℕ) (out : List ℕ)
    → (concat (user_vcprintf buf out).0 ≡ map low out)
      × All IsBatch (user_vcprintf buf out).0
      × ((user_vcprintf buf out).1 ≡ u32 (length out))
unfolding user_vcprintf
user_vcprintf_lem buf out =
    let empty : Printbuf = record { idx = 0; cnt = 0; buf = buf; batches = [] } in
    let b = put_batches out empty in
    let s =
      put_batches-Sent out [] empty
        (record { room = omega arith; text = refl; sizes = tt; count = refl }) in
    (
      concat-append b.batches (held b.buf b.idx ∷ [])
          ∙ ap (λ (l : List ℕ). concat b.batches ++ l) (append-nil (held b.buf b.idx))
          ∙ s.text,
      All-append b.batches (held b.buf b.idx) s.sizes
          (let e = length-held b.buf b.idx in omega (arith, s.room)),
      s.count,
    )
