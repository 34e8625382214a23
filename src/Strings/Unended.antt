-- ===== src/Strings/Unended.antt =====
-- Where the loop of strlen runs out of fuel, there is no NUL within reach.
use lab3a.Base.{
  ℕ, zero, suc, ◌+◌, ◌<◌, ◌≡◌, ◌≢◌, refl, Option, none, some, Bool, true, false, ◌==◌,
  if◌then◌else◌, arith,
}
use lab3a.Strings.{Bytes, strlen, add_one}

-- One byte in front of the others.
pub no_nul_further :
    (mem : Bytes) (p n : ℕ)
    → mem p ≢ 0
    → ((j : ℕ) → j < n → mem (p + 1 + j) ≢ 0)
    → (j : ℕ) → j < suc n
    → mem (p + j) ≢ 0
no_nul_further mem p n first others zero h = let e : p + 0 ≡ p = omega arith in rw e first
no_nul_further mem p n first others (suc j) h =
    let e : p + suc j ≡ p + 1 + j = omega arith in rw e (others j (omega arith))

pub if-none {ℓ} :
    {A : Type ℓ} (b : Bool) (a : A) (o : Option A)
    → (if b then some a else o) ≡ none
    → (b ≡ false) × (o ≡ none)
if-none true a o e = absurd cc
if-none false a o e = (refl, e)

add_one-none : (o : Option ℕ) → add_one o ≡ none → o ≡ none
add_one-none none e = refl
add_one-none (some n) e = absurd cc

pub strlen-none :
    (fuel : ℕ) (mem : Bytes) (s : ℕ)
    → strlen fuel mem s ≡ none
    → (j : ℕ) → j < fuel
    → mem (s + j) ≢ 0
unfolding strlen
strlen-none zero mem s e = λ j h. absurd (omega arith)
strlen-none (suc fuel) mem s e =
    let f = if-none (mem s == 0) 0 (add_one (strlen fuel mem (s + 1))) e in
    no_nul_further mem s fuel (ground (arith, f.0))
      (strlen-none fuel mem (s + 1) (add_one-none (strlen fuel mem (s + 1)) f.1))
