-- ===== src/Strings/Compare.antt =====
-- strcmp of lib/string.c is zero on equal strings alone, and negative on the smaller one.
use lab3a.Base.{
  subst, ℕ, zero, suc, ◌+◌, ◌<◌, ◌≡◌, ◌≢◌, ◌↔◌, refl, sym, ap, ◌∙◌, inl, inr, Option, none, some,
  Bool, true, false, List, [], ◌∷◌, length, arith, ◌==◌, ltb, ◌||◌, ◌&&◌, Bool-cases, All, ==_iff,
}
use mathlib.Core.Bool.{false≢true}
use lab3a.Mmu.{is_negative}
use lab3a.Strings.{Bytes, strcmp, StringAt, byte_diff}

-- The first string comes before the second in the order of dictionaries.
abbrev pub before : List ℕ → List ℕ → Bool
before [] [] = false
before [] (d ∷ ds) = true
before (c ∷ cs) [] = false
before (c ∷ cs) (d ∷ ds) = ltb c d || ((c == d) && before cs ds)

abbrev pub IsOrder : List ℕ → List ℕ → Option ℕ → Type 0
IsOrder cs ds none = ⊥
IsOrder cs ds (some r) = ((r ≡ 0) ↔ (cs ≡ ds)) × (is_negative r ≡ before cs ds)

abbrev pub AreBytes : List ℕ → Type 0
AreBytes cs = All (λ c. c < 256) cs

cons_differ : (c d : ℕ) (cs ds : List ℕ) → c ≢ d → (c ∷ cs) ≢ (d ∷ ds)
cons_differ c d cs ds ne e = ne (ap head e)
  where
    head : List ℕ → ℕ
    head [] = 0
    head (x ∷ xs) = x

cons_same : (c : ℕ) (cs ds : List ℕ) → (c ∷ cs) ≡ (c ∷ ds) → cs ≡ ds
cons_same c cs ds e = ap tail e
  where
    tail : List ℕ → List ℕ
    tail [] = []
    tail (x ∷ xs) = xs

same_head : (c : ℕ) (cs ds : List ℕ) (r : Option ℕ) → IsOrder cs ds r → IsOrder (c ∷ cs) (c ∷ ds) r
same_head c cs ds none h = h
same_head c cs ds (some r) h = (
  (λ z. ap (λ (l : List ℕ). c ∷ l) (h.0.0 z), λ e. h.0.1 (cons_same c cs ds e)),
  h.1 ∙ ground arith,
)

other_head :
    (c d : ℕ) (cs ds : List ℕ)
    → c < 256
    → d < 256
    → c ≢ d
    → IsOrder (c ∷ cs) (d ∷ ds) (some (byte_diff c d))
other_head c d cs ds hc hd ne =
    ((λ z. absurd (ne (omega (arith, z))), λ e. absurd (cons_differ c d cs ds ne e)), ground arith)

abbrev is_nil : List ℕ → Bool
is_nil [] = true
is_nil (c ∷ cs) = false

ends_first :
    (d : ℕ) (ds : List ℕ) → d < 256 → (d == 0) ≡ false → IsOrder [] (d ∷ ds) (some (byte_diff 0 d))
ends_first d ds h ne =
    ((λ z. ground arith, λ e. absurd (false≢true (sym (ap is_nil e)))), ground arith)

ends_second :
    (c : ℕ) (cs : List ℕ) → c < 256 → (c == 0) ≡ false → IsOrder (c ∷ cs) [] (some (byte_diff c 0))
ends_second c cs h ne = ((λ z. ground arith, λ e. absurd (false≢true (ap is_nil e))), ground arith)

-- For two strings of bytes in memory and fuel beyond the first one's length, strcmp ends; its
-- result is 0 exactly when the strings are equal, and negative exactly when the first comes before the
-- second in the order of dictionaries.
pub strcmp-IsOrder :
    (fuel : ℕ) (mem : Bytes) (p q : ℕ) (cs ds : List ℕ)
    → length cs < fuel
    → AreBytes cs
    → AreBytes ds
    → StringAt mem p cs
    → StringAt mem q ds
    → IsOrder cs ds (strcmp fuel mem p q)
unfolding strcmp
strcmp-IsOrder zero mem p q cs ds h bc bd t u = absurd (omega arith)
strcmp-IsOrder (suc fuel) mem p q [] [] h bc bd t u = rw (t, u) ((λ _. refl, λ _. refl), refl)
strcmp-IsOrder (suc fuel) mem p q [] (d ∷ ds) h bc bd t u = rw (t, u.0) (ends_first d ds bd.0 u.1)
strcmp-IsOrder (suc fuel) mem p q (c ∷ cs) [] h bc bd t u =
    rw (t.0, u, t.1) (ends_second c cs bc.0 t.1)
strcmp-IsOrder (suc fuel) mem p q (c ∷ cs) (d ∷ ds) h bc bd t u =
    let rest = strcmp-IsOrder fuel mem (p + 1) (q + 1) cs ds (omega arith) bc.1 bd.1 t.2 u.2 in
    elim (Bool-cases (c == d)) [
      | inl e ↦
          rw (t.0, t.1, u.0, e)
            (subst (λ (x : ℕ). IsOrder (c ∷ cs) (x ∷ ds) (strcmp fuel mem (p + 1) (q + 1)))
              ((==_iff c d).0 e) (same_head c cs ds _ rest))
      | inr e ↦ rw (t.0, t.1, u.0, e) (other_head c d cs ds bc.0 bd.0 (ground arith))
    ]
