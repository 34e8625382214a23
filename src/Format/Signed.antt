-- ===== src/Format/Signed.antt =====
-- %d of lib/printfmt.c, from the format to the characters.
use lab3a.Strings.{Bytes}
use lab3a.Format.Run.{vprintfmt, run, printed}
use lab3a.Base.{
  ℕ, ◌+◌, ◌-◌, ◌%◌, ◌^◌, ◌<◌, ◌≡◌, ◌⊎◌, inl, inr, refl, some, Bool-cases, leb, List, ◌∷◌, arith,
  false, true, suc, append-nil,
}
use lab3a.Mmu.{is_negative}
use lab3a.Format.Conversions.{Spec, put_signed, fresh}
use lab3a.Format.{step, step_spec, Bytes}
use lab3a.Format.Printnum.{count_of, sign_extend}
use lab3a.Format.Digits.{Numeral, printnum-Numeral}

-- The text is the decimal numeral of the `int` with the pattern w, padded to the width behind its sign.
abbrev pub IsDecimal : ℕ → ℕ → ℕ → List ℕ → Type 0
IsDecimal w width padc out =
    ((is_negative w ≡ false) × Numeral w 10 width padc out)
    ⊎ ((is_negative w ≡ true)
        × ((ds : List ℕ) × (out ≡ b'-' ∷ ds) × Numeral (2 ^ 32 - w) 10 width padc ds))

put_signed-IsDecimal :
    (s : Spec) (w : ℕ)
    → w < 2 ^ 32
    → (out : List ℕ) × (put_signed s (sign_extend w) ≡ some out)
      × IsDecimal w (count_of s.width) s.padc out
unfolding put_signed
put_signed-IsDecimal s w h = elim (Bool-cases (is_negative w)) [
  | inl e ↦
      let size : (2 ^ 64 - (w + (2 ^ 64 - 2 ^ 32))) % 2 ^ 64 ≡ 2 ^ 32 - w = ground arith in
      let wide : leb (2 ^ 63) (w + (2 ^ 64 - 2 ^ 32)) ≡ true = ground arith in
      let n =
        printnum-Numeral 10 s.padc 63 (2 ^ 32 - w) (count_of s.width) (omega arith) (omega arith)
          (omega arith) in
      rw (e, wide, size, n.1) (b'-' ∷ n.0, refl, inr (refl, (n.0, refl, n.2)))
  | inr e ↦
      let wide : leb (2 ^ 63) w ≡ false = ground arith in
      let n =
        printnum-Numeral 10 s.padc 63 w (count_of s.width) (omega arith) (omega arith)
          (omega arith) in
      rw (e, wide, n.1) (n.0, refl, inl (refl, n.2))
]

-- With the format "%d" in memory and an `int` as the argument, vprintfmt prints exactly the decimal numeral
-- of the `int`: its digits spell its size, the first digit is 0 only for the number 0, and a '-' stands in
-- front of a negative one, the smallest included.
pub vprintfmt-IsDecimal :
    (fuel limit : ℕ) (mem : Bytes) (fmt w : ℕ) (args : List ℕ)
    → mem fmt ≡ b'%'
    → mem (fmt + 1) ≡ b'd'
    → mem (fmt + 2) ≡ 0
    → w < 2 ^ 32
    → (out : List ℕ) × (vprintfmt (fuel + 3) limit mem fmt (w ∷ args) ≡ printed out)
      × IsDecimal w 0 b' ' out
unfolding vprintfmt run step step_spec
vprintfmt-IsDecimal fuel limit mem fmt w args percent d nul h =
    let n = put_signed-IsDecimal fresh w h in
    let three : fuel + 3 ≡ suc (suc (suc fuel)) = omega arith in
    let place : fmt + 1 + 1 ≡ fmt + 2 = omega arith in
    (n.0, rw (three, percent, d, n.1, place, nul, append-nil n.0) refl, n.2)
