-- ===== src/Strings/Fill.antt =====
-- memset of lib/string.c leaves what it should, by bytes and by words.
use lab3a.Base.{
  ℕ, zero, suc, ◌+◌, ◌*◌, ◌/◌, ◌%◌, ◌^◌, ◌<◌, ◌≤◌, ◌≡◌, ◌⊎◌, inl, inr, refl, sym, ◌∙◌, ap, true,
  false, ltb, leb, ◌==◌, ◌&&◌, if◌then◌else◌, update, arith, Bool-cases, bit_or_apart, bit_or,
}
use lab3a.Strings.{Bytes}
use lab3a.Strings.Memory.{stosb, stosl, put_word, four_times, memset}
use lab3a.Strings.Moves.{place, inside, outside}

-- The byte b at n places from d on, and the others as they were.
abbrev pub filled : Bytes → ℕ → ℕ → ℕ → Bytes
filled mem d b n q = if leb d q && ltb q (d + n) then b else mem q

filled_in : (mem : Bytes) (d b n q : ℕ) → d ≤ q → q < d + n → filled mem d b n q ≡ b
filled_in mem d b n q low high =
    let here : (leb d q && ltb q (d + n)) ≡ true = ground arith in rw here refl

filled_out : (mem : Bytes) (d b n q : ℕ) → (q < d) ⊎ (d + n ≤ q) → filled mem d b n q ≡ mem q
filled_out mem d b n q o =
    let away : (leb d q && ltb q (d + n)) ≡ false = ground arith in rw away refl

-- One unit of w bytes is filled in front of the others.
filled_front :
    (w n : ℕ) (mem mem' : Bytes) (d b q : ℕ)
    → mem' q ≡ filled mem d b w q
    → filled mem' (d + w) b n q ≡ filled mem d b (w + n) q
filled_front w n mem mem' d b q unit = elim (place (d + w) n q) [
  | inside low high ↦
      filled_in mem' (d + w) b n q low high
      ∙ sym (filled_in mem d b (w + n) q (omega arith) (omega arith))
  | outside o ↦ filled_out mem' (d + w) b n q o ∙ unit ∙ elim (place d w q) [
    | inside low high ↦
        filled_in mem d b w q low high ∙ sym (filled_in mem d b (w + n) q low (omega arith))
    | outside out ↦ filled_out mem d b w q out ∙ sym (filled_out mem d b (w + n) q (beyond o out))
  ]
]
  where
    beyond : (q < d + w) ⊎ (d + w + n ≤ q) → (q < d) ⊎ (d + w ≤ q) → (q < d) ⊎ (d + (w + n) ≤ q)
    beyond o out = ground arith

byte-filled : (mem : Bytes) (d b q : ℕ) → update mem d b q ≡ filled mem d b 1 q
byte-filled mem d b q = elim (Bool-cases (q == d)) [
  | inl e ↦ rw e (sym (filled_in mem d b 1 q (ground arith) (ground arith)))
  | inr e ↦ rw e (sym (filled_out mem d b 1 q (ground arith)))
]

stosb-filled : (n : ℕ) (mem : Bytes) (d c q : ℕ) → stosb mem d c n q ≡ filled mem d (c % 256) n q
stosb-filled zero mem d c q = sym (filled_out mem d (c % 256) 0 q (ground arith))
stosb-filled (suc n) mem d c q =
    let same : 1 + n ≡ suc n = omega arith in
    stosb-filled n (update mem d (c % 256)) (d + 1) c q
    ∙ filled_front 1 n mem (update mem d (c % 256)) d (c % 256) q (byte-filled mem d (c % 256) q)
    ∙ ap (λ (m : ℕ). filled mem d (c % 256) m q) same

-- The word that memset stores has the byte four times.
four_times_sum : (c : ℕ) → c < 256 → four_times c ≡ c * 2 ^ 24 + c * 2 ^ 16 + c * 2 ^ 8 + c
four_times_sum c h =
    let two : c * 2 ^ 24 + c * 2 ^ 16 ≡ (c * 2 ^ 8 + c) * 2 ^ 16 = omega arith in
    let three : (c * 2 ^ 8 + c) * 2 ^ 16 + c * 2 ^ 8 ≡ (c * 2 ^ 16 + c * 2 ^ 8 + c) * 2 ^ 8 =
      omega arith in
    ap (λ (x : ℕ). bit_or (bit_or x (c * 2 ^ 8)) c)
      (bit_or_apart 24 c (c * 2 ^ 16) (omega arith) ∙ two)
    ∙ ap (λ (x : ℕ). bit_or x c) (bit_or_apart 16 (c * 2 ^ 8 + c) (c * 2 ^ 8) (omega arith) ∙ three)
    ∙ bit_or_apart 8 (c * 2 ^ 16 + c * 2 ^ 8 + c) c h
    ∙ omega arith

word-filled :
    (mem : Bytes) (d c q : ℕ) → c < 256 → put_word mem d (four_times c) q ≡ filled mem d c 4 q
word-filled mem d c q h = elim (Bool-cases (q == d)) [
  | inl e ↦ rw e (low ∙ sym (filled_in mem d c 4 q (ground arith) (ground arith)))
  | inr e ↦ rw e (elim (Bool-cases (q == d + 1)) [
    | inl f ↦ rw f (second ∙ sym (filled_in mem d c 4 q (ground arith) (ground arith)))
    | inr f ↦ rw f (elim (Bool-cases (q == d + 2)) [
      | inl g ↦ rw g (third ∙ sym (filled_in mem d c 4 q (ground arith) (ground arith)))
      | inr g ↦ rw g (elim (Bool-cases (q == d + 3)) [
        | inl i ↦ rw i (high ∙ sym (filled_in mem d c 4 q (ground arith) (ground arith)))
        | inr i ↦ rw i (sym (filled_out mem d c 4 q (ground arith)))
      ])
    ])
  ])
]
  where
    low : four_times c % 256 ≡ c
    low = omega (arith, four_times_sum c h)

    second : four_times c / 2 ^ 8 % 256 ≡ c
    second = omega (arith, four_times_sum c h)

    third : four_times c / 2 ^ 16 % 256 ≡ c
    third = omega (arith, four_times_sum c h)

    high : four_times c / 2 ^ 24 % 256 ≡ c
    high = omega (arith, four_times_sum c h)

stosl-filled :
    (n : ℕ) (mem : Bytes) (d c q : ℕ)
    → c < 256
    → stosl mem d (four_times c) n q ≡ filled mem d c (4 * n) q
stosl-filled zero mem d c q h = sym (filled_out mem d c 0 q (ground arith))
stosl-filled (suc n) mem d c q h =
    let same : 4 + 4 * n ≡ 4 * suc n = omega arith in
    stosl-filled n (put_word mem d (four_times c)) (d + 4) c q h
    ∙ filled_front 4 (4 * n) mem (put_word mem d (four_times c)) d c q (word-filled mem d c q h)
    ∙ ap (λ (m : ℕ). filled mem d c m q) same

-- memset leaves the low byte of c at the n places from v on, and every other byte as it was, by bytes or by
-- words.
pub memset-filled : (mem : Bytes) (v c n q : ℕ) → memset mem v c n q ≡ filled mem v (c % 256) n q
unfolding memset
memset-filled mem v c n q = elim (Bool-cases ((v % 4 == 0) && (n % 4 == 0))) [
  | inl e ↦
      let whole : 4 * (n / 4) ≡ n = ground arith in
      rw e (
        stosl-filled (n / 4) mem v (c % 256) q (omega arith)
        ∙ ap (λ (m : ℕ). filled mem v (c % 256) m q) whole)
  | inr e ↦ rw e (stosb-filled n mem v c q)
]
