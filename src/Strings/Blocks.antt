-- ===== src/Strings/Blocks.antt =====
-- memcmp and memfind of lib/string.c over blocks of bytes.
use lab3a.Base.{
  ℕ, zero, suc, ◌+◌, ◌%◌, ◌<◌, ◌≤◌, ◌≡◌, ◌≢◌, ◌↔◌, ◌⊎◌, refl, inl, inr, false, arith, ◌==◌,
  Bool-cases, ==_iff,
}
use lab3a.Strings.{Bytes, memcmp, memfind, byte_diff}

-- The two blocks hold the same bytes.
abbrev pub AreSame : Bytes → ℕ → ℕ → ℕ → Type 0
AreSame mem s1 s2 n = (i : ℕ) → i < n → mem (s1 + i) ≡ mem (s2 + i)

same_first :
    (mem : Bytes) (s1 s2 n : ℕ)
    → mem s1 ≡ mem s2
    → AreSame mem (s1 + 1) (s2 + 1) n
    → AreSame mem s1 s2 (suc n)
same_first mem s1 s2 n e rest zero h =
    let a : s1 + 0 ≡ s1 = omega arith in let b : s2 + 0 ≡ s2 = omega arith in rw (a, b) e
same_first mem s1 s2 n e rest (suc i) h =
    let a : s1 + suc i ≡ s1 + 1 + i = omega arith in
    let b : s2 + suc i ≡ s2 + 1 + i = omega arith in rw (a, b) (rest i (omega arith))

same_rest :
    (mem : Bytes) (s1 s2 n : ℕ) → AreSame mem s1 s2 (suc n) → AreSame mem (s1 + 1) (s2 + 1) n
same_rest mem s1 s2 n all i h =
    let a : s1 + 1 + i ≡ s1 + suc i = omega arith in
    let b : s2 + 1 + i ≡ s2 + suc i = omega arith in rw (a, b) (all (suc i) (omega arith))

same_head : (mem : Bytes) (s1 s2 n : ℕ) → AreSame mem s1 s2 (suc n) → mem s1 ≡ mem s2
same_head mem s1 s2 n all =
    let a : s1 + 0 ≡ s1 = omega arith in
    let b : s2 + 0 ≡ s2 = omega arith in rw (a, b) at (all 0 (omega arith))

diff_zero : (a b : ℕ) → a < 256 → b < 256 → byte_diff a b ≡ 0 → a ≡ b
diff_zero a b ha hb z = omega (arith, z)

-- Where memory holds bytes, memcmp of two blocks of n bytes is 0 exactly when they hold the same.
pub memcmp-AreSame :
    (mem : Bytes) (n s1 s2 : ℕ)
    → ((q : ℕ) → mem q < 256)
    → (memcmp mem s1 s2 n ≡ 0) ↔ AreSame mem s1 s2 n
unfolding memcmp
memcmp-AreSame mem zero s1 s2 bytes = ((λ _ i h. absurd (omega arith)), λ _. refl)
memcmp-AreSame mem (suc n) s1 s2 bytes =
    let rest = memcmp-AreSame mem n (s1 + 1) (s2 + 1) bytes in
    elim (Bool-cases (mem s1 == mem s2)) [
      | inl e ↦ rw e (
        (λ z. same_first mem s1 s2 n ((==_iff (mem s1) (mem s2)).0 e) (rest.0 z)),
        λ all. rest.1 (same_rest mem s1 s2 n all),
      )
      | inr e ↦ rw e (
        (λ z. absurd (apart e (diff_zero (mem s1) (mem s2) (bytes s1) (bytes s2) z))),
        λ all. absurd (apart e (same_head mem s1 s2 n all)),
      )
    ]
  where
    apart : (mem s1 == mem s2) ≡ false → mem s1 ≡ mem s2 → ⊥
    apart e same = ground arith

-- What memfind promises: a place up to the end of the block, no byte before it being the one sought,
-- and it the one, unless it is the end.
abbrev pub IsFound : Bytes → ℕ → ℕ → ℕ → ℕ → Type 0
IsFound mem s c n r =
    (s ≤ r)
    × (r ≤ s + n)
    × ((q : ℕ) → s ≤ q → q < r → mem q ≢ c % 256)
    × ((r ≡ s + n) ⊎ (mem r ≡ c % 256))

-- memfind returns the first place of the block that holds the byte of c, and the block's end where
-- none does.
pub memfind-IsFound : (mem : Bytes) (n s c : ℕ) → IsFound mem s c n (memfind mem s c n)
unfolding memfind
memfind-IsFound mem zero s c =
    (omega arith, omega arith, (λ q l h. absurd (omega arith)), inl (omega arith))
memfind-IsFound mem (suc n) s c = elim (Bool-cases (mem s == c % 256)) [
  | inl e ↦ rw e (
    omega arith,
    omega arith,
    (λ q l h. absurd (omega arith)),
    inr ((==_iff (mem s) (c % 256)).0 e),
  )
  | inr e ↦
      let rest = memfind-IsFound mem n (s + 1) c in
      rw e (
        omega (arith, rest.0),
        omega (arith, rest.1),
        (λ q l h. before q e l (rest.2 q) h),
        elim rest.3 [ inl z ↦ inl (omega (arith, z)) | inr m ↦ inr m ],
      )
]
  where
    before :
        {r : ℕ} (q : ℕ)
        → (mem s == c % 256) ≡ false
        → s ≤ q
        → (s + 1 ≤ q → q < r → mem q ≢ c % 256)
        → q < r
        → mem q ≢ c % 256
    before q e l rest h = elim (Bool-cases (q == s)) [
      | inl same ↦ rw ((==_iff q s).0 same) (λ m. ground arith)
      | inr other ↦ rest (ground arith) h
    ]
