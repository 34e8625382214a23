-- ===== src/Base/Bits.antt =====
-- `|` of numbers whose set digits are apart, as a sum, and the lowest digit of `|`.
use Prim.Native.Nat.{
  ℕ, zero, suc, ◌+◌, ◌*◌, ◌/◌, ◌%◌, ◌^◌, ◌≤◌, ◌<◌, min, max, bit_and, bit_or, digits,
  bit_or-bitwise, bit_and-bitwise, ◌-◌,
}
use mathlib.Core.Path.{◌≡◌, refl, sym, ap, ◌∙◌}
use native.Mathlib.Nat.{pow-suc, pow-succ', div-div-eq-div-mul}
use native.Mathlib.Omega.{arith}

-- A bitwise operation stands for a recursion on a count of digits. One digit more than the first
-- number has changes nothing, and so any surplus.
module _ (rest : ℕ → ℕ) (join : ℕ → ℕ → ℕ) where
  spare_digit : (n a b : ℕ) → a ≤ n → digits rest join (suc n) a b ≡ digits rest join n a b
  spare_digit zero zero b h = refl
  spare_digit zero (suc a) b h = absurd (omega arith)
  spare_digit (suc n) zero b h = refl
  spare_digit (suc n) (suc a) b h =
      ap (λ (high : ℕ). high * 2 + join (suc a % 2) (b % 2))
        (spare_digit n (suc a / 2) (b / 2) (omega arith))

  spare_digits :
      (extra n a b : ℕ) → a ≤ n → digits rest join (extra + n) a b ≡ digits rest join n a b
  spare_digits zero n a b h = let e : 0 + n ≡ n = omega arith in rw e
  spare_digits (suc extra) n a b h =
      let e : suc extra + n ≡ suc (extra + n) = omega arith in
      rw e (spare_digit (extra + n) a b (omega arith) ∙ spare_digits extra n a b h)

  -- The high digits of the result come from the high digits.
  own_digits :
      (a b : ℕ)
      → digits rest join a (suc a / 2) (b / 2) ≡ digits rest join (suc a / 2) (suc a / 2) (b / 2)
  own_digits a b =
      let e : (a - suc a / 2) + suc a / 2 ≡ a = omega arith in
      rw e at (spare_digits (a - suc a / 2) (suc a / 2) (suc a / 2) (b / 2) (omega arith))

pub bit_or_step : (x y : ℕ) → bit_or x y ≡ bit_or (x / 2) (y / 2) * 2 + max (x % 2) (y % 2)
bit_or_step zero y = bit_or-bitwise 0 y ∙ omega (arith, bit_or-bitwise 0 (y / 2))
bit_or_step (suc x) y =
    let high = own_digits (λ t. t) max x y in
    omega (arith, high, bit_or-bitwise (suc x) y, bit_or-bitwise (suc x / 2) (y / 2))

pub bit_and_step : (x y : ℕ) → bit_and x y ≡ bit_and (x / 2) (y / 2) * 2 + min (x % 2) (y % 2)
bit_and_step zero y = omega (arith, bit_and-bitwise 0 y, bit_and-bitwise 0 (y / 2))
bit_and_step (suc x) y =
    let high = own_digits (λ t. 0) min x y in
    omega (arith, bit_and-bitwise (suc x / 2) (y / 2), bit_and-bitwise (suc x) y, high)

bit_or-zero_fuel : (n a : ℕ) → a ≤ n → bit_or a 0 ≡ a
bit_or-zero_fuel n zero h = refl
bit_or-zero_fuel zero (suc a) h = absurd (omega arith)
bit_or-zero_fuel (suc n) (suc a) h =
    omega (arith, bit_or_step (suc a) 0, bit_or-zero_fuel n (suc a / 2) (omega arith))

pub bit_or-zero : (a : ℕ) → bit_or a 0 ≡ a
bit_or-zero a = bit_or-zero_fuel a a (omega arith)

pub bit_or-one : (a : ℕ) → bit_or a 1 ≡ a / 2 * 2 + 1
bit_or-one a = omega (arith, bit_or_step a 1, bit_or-zero (a / 2))

-- The lowest digit of `|` is set when it is in either number.
pub bit_or-low : (a b : ℕ) → bit_or a b % 2 ≡ max (a % 2) (b % 2)
bit_or-low a b = omega (arith, bit_or_step a b)

half-bit_or : (a b : ℕ) → bit_or a b / 2 ≡ bit_or (a / 2) (b / 2)
half-bit_or a b = omega (arith, bit_or_step a b)

mul-pow-suc : (q k : ℕ) → q * 2 ^ suc k ≡ 2 * (q * 2 ^ k)
mul-pow-suc q k = omega (arith, ap (λ (t : ℕ). q * t) (pow-suc 2 k))

-- `|` with a number below `2 ^ k` where the other is a multiple of `2 ^ k`.
pub bit_or_apart : (k q r : ℕ) → r < 2 ^ k → bit_or (q * 2 ^ k) r ≡ q * 2 ^ k + r
bit_or_apart zero q zero h = rw bit_or-zero (omega arith)
bit_or_apart zero q (suc r) h = absurd (omega arith)
bit_or_apart (suc k) q r h = omega (
  arith,
  bit_or_step (q * 2 ^ suc k) r,
  mul-pow-suc q k,
  pow-suc 2 k,
  ap (λ (t : ℕ). bit_or t (r / 2)) (half q k),
  bit_or_apart k q (r / 2) (omega (arith, pow-suc 2 k)),
)
  where
    half : (q k : ℕ) → q * 2 ^ suc k / 2 ≡ q * 2 ^ k
    half q k = omega (arith, mul-pow-suc q k)

-- `|` with a number below `2 ^ k` leaves the digits above alone.
pub bit_or_high : (k a b : ℕ) → b < 2 ^ k → bit_or a b / 2 ^ k ≡ a / 2 ^ k
bit_or_high zero a zero h = rw bit_or-zero
bit_or_high zero a (suc b) h = absurd (omega arith)
bit_or_high (suc k) a b h =
    high (div-div a) (div-div (bit_or a b)) (half-bit_or a b)
      (bit_or_high k (a / 2) (b / 2) (omega (arith, pow-suc 2 k)))
  where
    div-div : (n : ℕ) → n / 2 ^ suc k ≡ n / 2 / 2 ^ k
    div-div n = rw (pow-succ' 2 k) (sym (div-div-eq-div-mul n 2 (2 ^ k)))

    high :
        a / 2 ^ suc k ≡ a / 2 / 2 ^ k
        → bit_or a b / 2 ^ suc k ≡ bit_or a b / 2 / 2 ^ k
        → bit_or a b / 2 ≡ bit_or (a / 2) (b / 2)
        → bit_or (a / 2) (b / 2) / 2 ^ k ≡ a / 2 / 2 ^ k
        → bit_or a b / 2 ^ suc k ≡ a / 2 ^ suc k
    high p q r s = q ∙ ap (λ (t : ℕ). t / 2 ^ k) r ∙ s ∙ sym p

-- `&` with one of the numbers that went into `|` gives that number.
absorb_fuel : (n a b c : ℕ) → a ≤ n → b ≤ n → c ≤ n → bit_and (bit_or (bit_or a b) c) b ≡ b
absorb_fuel zero zero zero zero ha hb hc = refl
absorb_fuel zero a (suc b) c ha hb hc = absurd (omega arith)
absorb_fuel zero (suc a) zero c ha hb hc = absurd (omega arith)
absorb_fuel zero zero zero (suc c) ha hb hc = absurd (omega arith)
absorb_fuel (suc n) a b c ha hb hc = omega (
  arith,
  bit_and_step (bit_or (bit_or a b) c) b,
  ap (λ (t : ℕ). bit_and t (b / 2)) halves,
  absorb_fuel n (a / 2) (b / 2) (c / 2) (omega arith) (omega arith) (omega arith),
  bit_or-low (bit_or a b) c,
  bit_or-low a b,
)
  where
    halves : bit_or (bit_or a b) c / 2 ≡ bit_or (bit_or (a / 2) (b / 2)) (c / 2)
    halves = half-bit_or (bit_or a b) c ∙ ap (λ (t : ℕ). bit_or t (c / 2)) (half-bit_or a b)

pub bit_and-absorb : (a b c : ℕ) → bit_and (bit_or (bit_or a b) c) b ≡ b
bit_and-absorb a b c = absorb_fuel (a + b + c) a b c (omega arith) (omega arith) (omega arith)

-- No digit is in both a number and 0, by the number's half.
none_common : (x bound : ℕ) → x < bound → bit_and x 0 ≡ 0
none_common x zero below = absurd (omega arith)
none_common zero (suc bound) below = refl
none_common (suc x) (suc bound) below =
    let half = none_common (suc x / 2) bound (omega arith) in
    omega (arith, half, bit_and_step (suc x) 0)

pub bit_and-one : (x : ℕ) → bit_and x 1 ≡ x % 2
bit_and-one x = omega (arith, none_common (x / 2) (suc x) (omega arith), bit_and_step x 1)

bit_or_swap : (n a b : ℕ) → a ≤ n → b ≤ n → bit_or a b ≡ bit_or b a
bit_or_swap zero zero zero ha hb = refl
bit_or_swap zero (suc a) b ha hb = absurd (omega arith)
bit_or_swap zero zero (suc b) ha hb = absurd (omega arith)
bit_or_swap (suc n) a b ha hb = omega (
  arith,
  bit_or_step a b,
  bit_or_step b a,
  bit_or_swap n (a / 2) (b / 2) (omega arith) (omega arith),
)

pub bit_or_comm : (a b : ℕ) → bit_or a b ≡ bit_or b a
bit_or_comm a b = bit_or_swap (a + b) a b (omega arith) (omega arith)
