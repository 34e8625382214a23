-- ===== src/Strings/Copy.antt =====
-- strlen, strcpy and strcat of lib/string.c: what they leave in memory, and that they end.
use lab3a.Base.{
  ℕ, zero, suc, ◌+◌, ◌≤◌, ◌<◌, ◌≡◌, ◌≢◌, ◌⊎◌, refl, ◌∙◌, subst, inl, inr, Option, none, some, false,
  List, [], ◌∷◌, ◌++◌, length, arith, ◌==◌, update, update_self, update_ne,
}
use lab3a.Strings.{Bytes, strlen, strcpy, strcat, StringAt}

pub strlen-StringAt :
    (fuel : ℕ) (mem : Bytes) (s : ℕ) (cs : List ℕ)
    → length cs < fuel
    → StringAt mem s cs
    → strlen fuel mem s ≡ some (length cs)
unfolding strlen
strlen-StringAt zero mem s cs h t = absurd (omega arith)
strlen-StringAt (suc fuel) mem s [] h t = rw t refl
strlen-StringAt (suc fuel) mem s (c ∷ cs) h t =
    rw (t.0, t.1, strlen-StringAt fuel mem (s + 1) cs (omega arith) t.2) refl

-- A string that no write touches stays.
pub StringAt-frame :
    (mem mem' : Bytes) (s : ℕ) (cs : List ℕ)
    → ((q : ℕ) → s ≤ q → q ≤ s + length cs → mem' q ≡ mem q)
    → StringAt mem s cs
    → StringAt mem' s cs
StringAt-frame mem mem' s [] same t = same s (omega arith) (omega arith) ∙ t
StringAt-frame mem mem' s (c ∷ cs) same t = (
  same s (omega arith) (omega arith) ∙ t.0,
  t.1,
  StringAt-frame mem mem' (s + 1) cs (λ q l h. same q (omega arith) (omega arith)) t.2,
)

-- What strcpy does with the string `cs`: it stands at `dst`, and no other place is written.
pub record Copied (mem : Bytes) (dst : ℕ) (cs : List ℕ) (mem' : Bytes) : Type 0 where
  pub copy : StringAt mem' dst cs
  pub outside : (q : ℕ) → (q < dst) ⊎ (dst + length cs < q) → mem' q ≡ mem q

abbrev pub IsCopied : Bytes → ℕ → List ℕ → Option Bytes → Type 0
IsCopied mem dst cs none = ⊥
IsCopied mem dst cs (some mem') = Copied mem dst cs mem'

pub Copied-cons :
    (mem mem' : Bytes) (dst c : ℕ) (cs : List ℕ)
    → (c == 0) ≡ false
    → Copied (update mem dst c) (dst + 1) cs mem'
    → Copied mem dst (c ∷ cs) mem'
Copied-cons mem mem' dst c cs ne h = record {
  copy = (h.outside dst (inl (omega arith)) ∙ update_self mem dst c, ne, h.copy);
  outside = λ q o. elim o [
    | inl l ↦ h.outside q (inl (omega arith)) ∙ update_ne mem dst q c (omega arith)
    | inr l ↦ h.outside q (inr (omega arith)) ∙ update_ne mem dst q c (omega arith)
  ];
}

pub Copied-nil : (mem : Bytes) (dst : ℕ) → Copied mem dst [] (update mem dst 0)
Copied-nil mem dst = record {
  copy = update_self mem dst 0;
  outside = λ q o. elim o [
    | inl l ↦ update_ne mem dst q 0 (omega arith)
    | inr l ↦ update_ne mem dst q 0 (omega arith)
  ];
}

-- The two strings' places are apart.
abbrev pub AreApart : ℕ → ℕ → List ℕ → Type 0
AreApart dst src cs = (src + length cs < dst) ⊎ (dst + length cs < src)

-- After the first byte of a string was copied, the rest of it is as before.
module _ (mem : Bytes) (dst src c : ℕ) (cs : List ℕ) (apart : AreApart dst src (c ∷ cs)) where
  untouched : (q : ℕ) → src + 1 ≤ q → q ≤ src + 1 + length cs → q ≢ dst
  untouched q l u = elim apart [ inl a ↦ omega arith | inr a ↦ omega arith ]

  pub StringAt-rest : StringAt mem (src + 1) cs → StringAt (update mem dst c) (src + 1) cs
  StringAt-rest t =
      StringAt-frame mem (update mem dst c) (src + 1) cs
        (λ q l u. update_ne mem dst q c (untouched q l u)) t

  pub AreApart-rest : AreApart (dst + 1) (src + 1) cs
  AreApart-rest = elim apart [ inl a ↦ inl (omega arith) | inr a ↦ inr (omega arith) ]

IsCopied-cons :
    (mem : Bytes) (dst c : ℕ) (cs : List ℕ) (r : Option Bytes)
    → (c == 0) ≡ false
    → IsCopied (update mem dst c) (dst + 1) cs r
    → IsCopied mem dst (c ∷ cs) r
IsCopied-cons mem dst c cs none ne h = h
IsCopied-cons mem dst c cs (some mem') ne h = Copied-cons mem mem' dst c cs ne h

pub strcpy-IsCopied :
    (fuel : ℕ) (mem : Bytes) (dst src : ℕ) (cs : List ℕ)
    → length cs < fuel
    → StringAt mem src cs
    → AreApart dst src cs
    → IsCopied mem dst cs (strcpy fuel mem dst src)
unfolding strcpy
strcpy-IsCopied zero mem dst src cs h t apart = absurd (omega arith)
strcpy-IsCopied (suc fuel) mem dst src [] h t apart = rw t (Copied-nil mem dst)
strcpy-IsCopied (suc fuel) mem dst src (c ∷ cs) h t apart =
    rw (t.0, t.1)
      (IsCopied-cons mem dst c cs _ t.1 (
        strcpy-IsCopied fuel (update mem dst c) (dst + 1) (src + 1) cs (omega arith)
          (StringAt-rest mem dst src c cs apart t.2) (AreApart-rest mem dst src c cs apart)))

StringAt-append :
    (mem mem' : Bytes) (s : ℕ) (ds cs : List ℕ)
    → ((q : ℕ) → s ≤ q → q < s + length ds → mem' q ≡ mem q)
    → StringAt mem s ds
    → StringAt mem' (s + length ds) cs
    → StringAt mem' s (ds ++ cs)
StringAt-append mem mem' s [] cs same t u =
    let e : s + 0 ≡ s = omega arith in subst (λ (p : ℕ). StringAt mem' p cs) e u
StringAt-append mem mem' s (d ∷ ds) cs same t u =
    let e : s + suc (length ds) ≡ s + 1 + length ds = omega arith in
    (
      same s (omega arith) (omega arith) ∙ t.0,
      t.1,
      StringAt-append mem mem' (s + 1) ds cs (λ q l h. same q (omega arith) (omega arith)) t.2
          (subst (λ (p : ℕ). StringAt mem' p cs) e u),
    )

-- What strcat does: the string `cs` stands behind `ds`, and no place outside the two is written.
abbrev IsAppended : Bytes → ℕ → List ℕ → List ℕ → Option Bytes → Type 0
IsAppended mem dst ds cs none = ⊥
IsAppended mem dst ds cs (some mem') =
    StringAt mem' dst (ds ++ cs)
    × ((q : ℕ) → (q < dst) ⊎ (dst + length ds + length cs < q) → mem' q ≡ mem q)

appended :
    (mem : Bytes) (dst : ℕ) (ds cs : List ℕ) (r : Option Bytes)
    → StringAt mem dst ds
    → IsCopied mem (dst + length ds) cs r
    → IsAppended mem dst ds cs r
appended mem dst ds cs none t h = h
appended mem dst ds cs (some mem') t h = (
  StringAt-append mem mem' dst ds cs (λ q l u. h.outside q (inl u)) t h.copy,
  λ q o. elim o [ inl l ↦ h.outside q (inl (omega arith)) | inr l ↦ h.outside q (inr l) ],
)

-- For strings ds at dst and cs at src, the place of cs apart from that of both together, and fuel
-- beyond their lengths, strcat ends; the string ds ++ cs stands at dst then, and no place
-- outside it is written.
strcat-IsAppended :
    (fuel : ℕ) (mem : Bytes) (dst src : ℕ) (ds cs : List ℕ)
    → length ds < fuel
    → length cs < fuel
    → StringAt mem dst ds
    → StringAt mem src cs
    → (src + length cs < dst) ⊎ (dst + length ds + length cs < src)
    → IsAppended mem dst ds cs (strcat fuel mem dst src)
unfolding strcat
strcat-IsAppended fuel mem dst src ds cs hd hc t u apart =
    rw (strlen-StringAt fuel mem dst ds hd t) (
      appended mem dst ds cs _ t (
        strcpy-IsCopied fuel mem (dst + length ds) src cs hc u
          (elim apart [ inl l ↦ inl (omega arith) | inr l ↦ inr l ])))
