-- ===== src/Strings/Moves.antt =====
-- memmove and memset of lib/string.c leave what they should, whichever instructions they use.
use lab3a.Base.{
  ℕ, zero, suc, ◌+◌, ◌-◌, ◌*◌, ◌/◌, ◌%◌, ◌<◌, ◌≤◌, ◌≡◌, ◌⊎◌, inl, inr, refl, ◌∙◌, ap, Bool, true,
  false, ltb, leb, ◌==◌, ◌&&◌, if◌then◌else◌, update, arith, Bool-cases, ltb→lt, sym, ltb→le, subst,
}
use lab3a.Strings.{Bytes}
use lab3a.Strings.Memory.{move_word, movsb_up, movsl_up, movsb_down, movsl_down, memmove}

-- The n bytes that stood at s stand at d, and the others are as they were.
abbrev pub moved : Bytes → ℕ → ℕ → ℕ → Bytes
moved mem d s n q = if leb d q && ltb q (d + n) then mem (s + (q - d)) else mem q

moved_in :
    (mem : Bytes) (d s n q p : ℕ) → d ≤ q → q < d + n → p ≡ s + (q - d) → moved mem d s n q ≡ mem p
moved_in mem d s n q p low high e =
    let inside : (leb d q && ltb q (d + n)) ≡ true = ground arith in rw (inside, e) refl

moved_out : (mem : Bytes) (d s n q : ℕ) → (q < d) ⊎ (d + n ≤ q) → moved mem d s n q ≡ mem q
moved_out mem d s n q o =
    let outside : (leb d q && ltb q (d + n)) ≡ false = ground arith in rw outside refl

-- A place is in an area, or outside it.
pub data Place (d n q : ℕ) : Type 0 where
  inside : d ≤ q → q < d + n → Place d n q
  outside : (q < d) ⊎ (d + n ≤ q) → Place d n q

pub place : (d n q : ℕ) → Place d n q
place d n q = elim (Bool-cases (ltb q d)) [
  | inl e ↦ outside (inl (ltb→lt q d e))
  | inr e ↦ elim (Bool-cases (ltb q (d + n))) [
    | inl f ↦ inside (ltb→le q d e) (ltb→lt q (d + n) f)
    | inr f ↦ outside (inr (ltb→le q (d + n) f))
  ]
]

-- One unit of w bytes is moved in front of the others, or behind them.
module _ (w n : ℕ) (mem mem' : Bytes) (d s q : ℕ)
    (unit : (q : ℕ) → mem' q ≡ moved mem d s w q) where
  moved_front :
      (d ≤ s) ⊎ (s + (w + n) ≤ d) → moved mem' (d + w) (s + w) n q ≡ moved mem d s (w + n) q
  moved_front apart = elim (place (d + w) n q) [
    | inside low high ↦
        moved_in mem' (d + w) (s + w) n q (s + (q - d)) low high (omega arith)
        ∙ unit (s + (q - d))
        ∙ moved_out mem d s w (s + (q - d))
            (elim apart [ inl a ↦ inr (omega arith) | inr a ↦ inl (omega arith) ])
        ∙ sym (moved_in mem d s (w + n) q (s + (q - d)) (omega arith) (omega arith) refl)
    | outside o ↦ moved_out mem' (d + w) (s + w) n q o ∙ unit q ∙ elim (place d w q) [
      | inside low high ↦
          moved_in mem d s w q (s + (q - d)) low high refl
          ∙ sym (moved_in mem d s (w + n) q (s + (q - d)) low (omega arith) refl)
      | outside out ↦ moved_out mem d s w q out ∙ sym (moved_out mem d s (w + n) q (beyond o out))
    ]
  ]
    where
      beyond : (q < d + w) ⊎ (d + w + n ≤ q) → (q < d) ⊎ (d + w ≤ q) → (q < d) ⊎ (d + (w + n) ≤ q)
      beyond o out = ground arith

module _ (w n : ℕ) (mem mem' : Bytes) (d s q : ℕ)
    (unit : (q : ℕ) → mem' q ≡ moved mem (d + n) (s + n) w q) where
  moved_back : s < d → moved mem' d s n q ≡ moved mem d s (w + n) q
  moved_back apart = elim (place d n q) [
    | inside low high ↦
        moved_in mem' d s n q (s + (q - d)) low high refl
        ∙ unit (s + (q - d))
        ∙ moved_out mem (d + n) (s + n) w (s + (q - d)) (inl (omega arith))
        ∙ sym (moved_in mem d s (w + n) q (s + (q - d)) low (omega arith) refl)
    | outside o ↦ moved_out mem' d s n q o ∙ unit q ∙ elim (place (d + n) w q) [
      | inside low high ↦
          moved_in mem (d + n) (s + n) w q (s + (q - d)) low high (omega arith)
          ∙ sym (moved_in mem d s (w + n) q (s + (q - d)) (omega arith) (omega arith) refl)
      | outside out ↦
          moved_out mem (d + n) (s + n) w q out ∙ sym (moved_out mem d s (w + n) q (beyond o out))
    ]
  ]
    where
      beyond : (q < d) ⊎ (d + n ≤ q) → (q < d + n) ⊎ (d + n + w ≤ q) → (q < d) ⊎ (d + (w + n) ≤ q)
      beyond o out = ground arith

byte-moved : (mem : Bytes) (d s q : ℕ) → update mem d (mem s) q ≡ moved mem d s 1 q
byte-moved mem d s q = elim (Bool-cases (q == d)) [
  | inl e ↦
      let zero_off : q - d ≡ 0 = ground arith in
      let place : s + 0 ≡ s = omega arith in
      let in_range : (leb d q && ltb q (d + 1)) ≡ true = ground arith in
      rw (e, in_range, zero_off, place) refl
  | inr e ↦ let out : (leb d q && ltb q (d + 1)) ≡ false = ground arith in rw (e, out) refl
]

word-moved : (mem : Bytes) (d s q : ℕ) → move_word mem d s q ≡ moved mem d s 4 q
word-moved mem d s q = elim (Bool-cases (q == d)) [
  | inl e ↦ rw e (sym (moved_in mem d s 4 q s (ground arith) (ground arith) (ground arith)))
  | inr e ↦ rw e (elim (Bool-cases (q == d + 1)) [
    | inl f ↦ rw f (sym (moved_in mem d s 4 q (s + 1) (ground arith) (ground arith) (ground arith)))
    | inr f ↦ rw f (elim (Bool-cases (q == d + 2)) [
      | inl g ↦
          rw g (sym (moved_in mem d s 4 q (s + 2) (ground arith) (ground arith) (ground arith)))
      | inr g ↦ rw g (elim (Bool-cases (q == d + 3)) [
        | inl h ↦
            rw h (sym (moved_in mem d s 4 q (s + 3) (ground arith) (ground arith) (ground arith)))
        | inr h ↦ rw h (sym (moved_out mem d s 4 q (ground arith)))
      ])
    ])
  ])
]

movsb_up-moved :
    (n : ℕ) (mem : Bytes) (d s q : ℕ)
    → (d ≤ s) ⊎ (s + n ≤ d)
    → movsb_up mem d s n q ≡ moved mem d s n q
movsb_up-moved zero mem d s q apart = sym (moved_out mem d s 0 q (ground arith))
movsb_up-moved (suc n) mem d s q apart =
    let same : 1 + n ≡ suc n = omega arith in
    movsb_up-moved n (update mem d (mem s)) (d + 1) (s + 1) q (ground arith)
    ∙ moved_front 1 n mem (update mem d (mem s)) d s q (byte-moved mem d s) (ground arith)
    ∙ ap (λ (m : ℕ). moved mem d s m q) same

movsb_down-moved :
    (n : ℕ) (mem : Bytes) (d s q : ℕ) → s < d → movsb_down mem d s n q ≡ moved mem d s n q
movsb_down-moved zero mem d s q apart = sym (moved_out mem d s 0 q (ground arith))
movsb_down-moved (suc n) mem d s q apart =
    let same : 1 + n ≡ suc n = omega arith in
    movsb_down-moved n (update mem (d + n) (mem (s + n))) d s q apart
    ∙ moved_back 1 n mem (update mem (d + n) (mem (s + n))) d s q (byte-moved mem (d + n) (s + n))
        apart
    ∙ ap (λ (m : ℕ). moved mem d s m q) same

movsl_up-moved :
    (n : ℕ) (mem : Bytes) (d s q : ℕ)
    → (d ≤ s) ⊎ (s + 4 * n ≤ d)
    → movsl_up mem d s n q ≡ moved mem d s (4 * n) q
movsl_up-moved zero mem d s q apart = sym (moved_out mem d s 0 q (ground arith))
movsl_up-moved (suc n) mem d s q apart =
    let same : 4 + 4 * n ≡ 4 * suc n = omega arith in
    movsl_up-moved n (move_word mem d s) (d + 4) (s + 4) q (ground arith)
    ∙ moved_front 4 (4 * n) mem (move_word mem d s) d s q (word-moved mem d s) (ground arith)
    ∙ ap (λ (m : ℕ). moved mem d s m q) same

movsl_down-moved :
    (n : ℕ) (mem : Bytes) (d s q : ℕ) → s < d → movsl_down mem d s n q ≡ moved mem d s (4 * n) q
movsl_down-moved zero mem d s q apart = sym (moved_out mem d s 0 q (ground arith))
movsl_down-moved (suc n) mem d s q apart =
    let same : 4 + 4 * n ≡ 4 * suc n = omega arith in
    movsl_down-moved n (move_word mem (d + 4 * n) (s + 4 * n)) d s q apart
    ∙ moved_back 4 (4 * n) mem (move_word mem (d + 4 * n) (s + 4 * n)) d s q
        (word-moved mem (d + 4 * n) (s + 4 * n)) apart
    ∙ ap (λ (m : ℕ). moved mem d s m q) same

whole_words : (n : ℕ) (b c : Bool) → (b && (c && (n % 4 == 0))) ≡ true → 4 * (n / 4) ≡ n
whole_words n true true h = ground arith
whole_words n true false h = cc
whole_words n false c h = cc

-- memmove leaves the n bytes that stood at src at dst, and every other byte as it was, wherever the two
-- areas lie, overlapping ones included, and whether it goes up or down, by bytes or by words.
pub memmove-moved :
    (mem : Bytes) (dst src n q : ℕ) → memmove mem dst src n q ≡ moved mem dst src n q
unfolding memmove
memmove-moved mem dst src n q = elim (Bool-cases (ltb src dst && ltb dst (src + n))) [
  | inl down ↦
      let behind : src < dst = ground arith in
      rw down (elim (Bool-cases (((src + n) % 4 == 0) && (((dst + n) % 4 == 0) && (n % 4 == 0)))) [
        | inl e ↦ rw e (
            movsl_down-moved (n / 4) mem dst src q behind
            ∙ ap (λ (m : ℕ). moved mem dst src m q) (whole_words n _ _ e))
        | inr e ↦ rw e (movsb_down-moved n mem dst src q behind)
      ])
  | inr up ↦
      let apart : (dst ≤ src) ⊎ (src + n ≤ dst) = ground arith in
      rw up (elim (Bool-cases ((src % 4 == 0) && ((dst % 4 == 0) && (n % 4 == 0)))) [
        | inl e ↦ rw e (
            movsl_up-moved (n / 4) mem dst src q
              (subst (λ (m : ℕ). (dst ≤ src) ⊎ (src + m ≤ dst)) (sym (whole_words n _ _ e)) apart)
            ∙ ap (λ (m : ℕ). moved mem dst src m q) (whole_words n _ _ e))
        | inr e ↦ rw e (movsb_up-moved n mem dst src q apart)
      ])
]
