-- ===== src/Base/Lists.antt =====
-- Lists measured and indexed by native numbers, membership of numbers, and functions updated at a
-- point.
use Prim.Native.Nat.{ℕ, zero, suc, ◌+◌}
use mathlib.Core.Path.{refl, ◌≡◌, sym, ap, ◌∙◌, subst, fun_ext}
use mathlib.Core.Logic.{◌≢◌, inl, inr}
use mathlib.Core.Bool.{Bool, true, false, ◌||◌, false≢true}
use mathlib.Core.List.{List, [], ◌∷◌, ◌++◌}
use native.Mathlib.Omega.{arith}
use lab3a.Base.Tests.{◌==◌, ==_iff, ==_self, ==_ne, Bool-cases, if◌then◌else◌}

module _ {ℓ} {A : Type ℓ} where
  abbrev pub length : List A → ℕ
  length [] = 0
  length (x ∷ xs) = suc (length xs)

  abbrev pub take : ℕ → List A → List A
  take zero xs = []
  take (suc n) [] = []
  take (suc n) (x ∷ xs) = x ∷ take n xs

  abbrev pub get_or : List A → ℕ → A → A
  get_or [] i d = d
  get_or (x ∷ xs) zero d = x
  get_or (x ∷ xs) (suc i) d = get_or xs i d

  pub length-append : (xs ys : List A) → length (xs ++ ys) ≡ length xs + length ys
  length-append [] ys = omega arith
  length-append (x ∷ xs) ys = omega (arith, length-append xs ys)

  pub append-nil : (xs : List A) → xs ++ [] ≡ xs
  append-nil [] = refl
  append-nil (x ∷ xs) = ap (λ (l : List A). x ∷ l) (append-nil xs)

  pub append_assoc : (xs ys zs : List A) → (xs ++ ys) ++ zs ≡ xs ++ (ys ++ zs)
  append_assoc [] ys zs = refl
  append_assoc (x ∷ xs) ys zs = ap (λ (l : List A). x ∷ l) (append_assoc xs ys zs)

  -- A memory cell or an array element is written.
  abbrev pub update : (ℕ → A) → ℕ → A → ℕ → A
  update f p v q = if q == p then v else f q

abbrev pub All {ℓ κ} : {A : Type ℓ} → (A → Type κ) → List A → Type κ
All P [] = Unit
All P (x ∷ xs) = P x × All P xs

abbrev pub has : ℕ → List ℕ → Bool
has a [] = false
has a (x ∷ xs) = (a == x) || has a xs

-- No number stands twice.
abbrev pub Distinct : List ℕ → Type 0
Distinct [] = Unit
Distinct (x ∷ xs) = (has x xs ≡ false) × Distinct xs

pub All-at {κ} : (P : ℕ → Type κ) (a : ℕ) (xs : List ℕ) → All P xs → has a xs ≡ true → P a
All-at P a [] h m = elim (false≢true m) [ ]
All-at P a (x ∷ xs) h m = elim (Bool-cases (a == x)) [
  | inl e ↦ subst P (sym ((==_iff a x).0 e)) h.0
  | inr e ↦ All-at P a xs h.1 (rw (e) at m)
]

pub All-map {κ} :
    (P Q : ℕ → Type κ) (xs : List ℕ) → ((a : ℕ) → has a xs ≡ true → P a → Q a) → All P xs → All Q xs
All-map P Q [] f h = tt
All-map P Q (x ∷ xs) f h = (f x (ground arith) h.0, All-map P Q xs (λ a m. f a (ground arith)) h.1)

-- A write at a place outside the list is not seen at a place in it.
pub update-has {ℓ} :
    {A : Type ℓ} (f : ℕ → A) (p q : ℕ) (v : A) (xs : List ℕ)
    → has p xs ≡ false
    → has q xs ≡ true
    → update f p v q ≡ f q
update-has f p q v xs out m = elim (Bool-cases (q == p)) [
  | inl e ↦ absurd (false≢true (apart ((==_iff q p).0 e)))
  | inr e ↦ rw e
]
  where
    apart : q ≡ p → false ≡ true
    apart e = cc

pub update_self {ℓ} : {A : Type ℓ} (f : ℕ → A) (p : ℕ) (v : A) → update f p v p ≡ v
update_self f p v = rw ==_self

pub update_ne {ℓ} : {A : Type ℓ} (f : ℕ → A) (p q : ℕ) (v : A) → q ≢ p → update f p v q ≡ f q
update_ne f p q v h = rw (==_ne q p h)

pub update-update {ℓ} :
    {A : Type ℓ} (f : ℕ → A) (p : ℕ) (v w : A) → update (update f p v) p w ≡ update f p w
update-update f p v w = fun_ext λ q. ground arith

-- A write that keeps what `g` sees at its place keeps what `g` sees everywhere.
pub update_keep {ℓ κ} :
    {A : Type ℓ} {B : Type κ} (g : A → B) (f : ℕ → A) (p q : ℕ) (v : A)
    → g v ≡ g (f p)
    → g (update f p v q) ≡ g (f q)
update_keep g f p q v h = elim (Bool-cases (q == p)) [
  | inl e ↦ rw e (h ∙ ap (λ (i : ℕ). g (f i)) (sym ((==_iff q p).0 e)))
  | inr e ↦ rw e
]
