-- ===== src/Trap/Gates.antt =====
-- The interrupt descriptor table that trap_init of kern/trap.c builds with SETGATE of inc/mmu.h. The
-- addresses of the handlers, which kern/trapentry.S lays out, are a parameter.
use lab3a.Base.{
  subst, update_ne, ℕ, zero, suc, ◌+◌, ◌*◌, ◌/◌, ◌%◌, ◌^◌, ◌≡◌, ◌≢◌, refl, sym, ap, ◌∙◌, inl, inr,
  Bool, true, false, not, ◌&&◌, ◌||◌, ltb, leb, arith, ◌==◌, if◌then◌else◌, update, Bool-cases,
  ==_iff, ==_self,
}
use lab3a.Mmu.{u32}
use lab3a.Env.{gd_kt}
use lab3a.Trap.{t_brkpt}

-- struct Gatedesc
pub record Gatedesc : Type 0 where
  pub gd_off_15_0 : ℕ
  pub gd_sel : ℕ
  pub gd_args : ℕ
  pub gd_rsv1 : ℕ
  pub gd_type : ℕ
  pub gd_s : ℕ
  pub gd_dpl : ℕ
  pub gd_p : ℕ
  pub gd_off_31_16 : ℕ

-- SETGATE(gate, istrap, sel, off, dpl), as the gate that it leaves
abbrev pub setgate : Bool → ℕ → ℕ → ℕ → Gatedesc
setgate istrap sel off dpl = record {
  gd_off_15_0 = off % 2 ^ 16;
  gd_sel = sel;
  gd_args = 0;
  gd_rsv1 = 0;
  gd_type = if istrap then 0xF else 0xE;
  gd_s = 0;
  gd_dpl = dpl;
  gd_p = 1;
  gd_off_31_16 = u32 off / 2 ^ 16;
}

module _ (vectors : ℕ → ℕ) where
  -- The body of trap_init's loop.
  abbrev pub init_gate : ℕ → (ℕ → Gatedesc) → ℕ → Gatedesc
  init_gate i idt =
      if i == t_brkpt
      then update idt i (setgate false gd_kt (vectors i) 3)
      else if not (i == 2) && not (i == 15)
      then update idt i (setgate false gd_kt (vectors i) 0)
      else idt

  pub init_gates : ℕ → ℕ → (ℕ → Gatedesc) → ℕ → Gatedesc
  init_gates zero i idt = idt
  init_gates (suc rounds) i idt = init_gates rounds (suc i) (init_gate i idt)

  -- trap_init's part that fills `idt`
  unfoldable pub trap_init : (ℕ → Gatedesc) → ℕ → Gatedesc
  unfolding init_gates
  trap_init idt = update (init_gates 17 0 idt) 48 (setgate false gd_kt (vectors 48) 3)

  init_gate_ne : (i n : ℕ) (idt : ℕ → Gatedesc) → n ≢ i → init_gate i idt n ≡ idt n
  init_gate_ne i n idt ne = ground arith

  init_gate_cong : (n : ℕ) (f g : ℕ → Gatedesc) → f n ≡ g n → init_gate n f n ≡ init_gate n g n
  init_gate_cong n f g e = ground (arith, e)

  init_gates-at :
      (rounds i n : ℕ) (idt : ℕ → Gatedesc)
      → init_gates rounds i idt n
        ≡ (if leb i n && ltb n (i + rounds) then init_gate n idt n else idt n)
  unfolding init_gates
  init_gates-at zero i n idt = ground arith
  init_gates-at (suc rounds) i n idt =
      init_gates-at rounds (suc i) n (init_gate i idt) ∙ elim (Bool-cases (n == i)) [
        | inl e ↦
            let same : n ≡ i = (==_iff n i).0 e in
            let out : (leb (suc i) n && ltb n (suc i + rounds)) ≡ false = ground arith in
            let within : (leb i n && ltb n (i + suc rounds)) ≡ true = ground arith in
            rw (out, within) (ap (λ (j : ℕ). init_gate j idt n) (sym same))
        | inr e ↦
            let before : init_gate i idt n ≡ idt n = init_gate_ne i n idt (ground arith) in
            let both : (leb (suc i) n && ltb n (suc i + rounds))
                ≡ (leb i n && ltb n (i + suc rounds)) =
              ground arith in
            rw both (elim (Bool-cases (leb i n && ltb n (i + suc rounds))) [
              | inl c ↦ rw c (init_gate_cong n (init_gate i idt) idt before)
              | inr c ↦ rw c before
            ])
      ]

  -- The gates that trap_init makes.
  abbrev pub has_gate : ℕ → Bool
  has_gate n = n == 48 || (ltb n 17 && (not (n == 2) && not (n == 15)))

  -- The gate that belongs to a trap.
  abbrev pub gate_for : (ℕ → Gatedesc) → ℕ → Gatedesc
  gate_for idt n =
      if has_gate n
      then setgate false gd_kt (vectors n) (if n == 3 || n == 48 then 3 else 0)
      else idt n

  low_gate :
      (idt : ℕ → Gatedesc) (n : ℕ)
      → (n == 48) ≡ false
      → (if ltb n 17 then init_gate n idt n else idt n) ≡ gate_for idt n
  low_gate idt n e = elim (Bool-cases (ltb n 17)) [
    | inr c ↦ rw (e, c) refl
    | inl c ↦ elim (Bool-cases (n == 3)) [
      | inl t ↦
          subst (λ (m : ℕ). (if ltb m 17 then init_gate m idt m else idt m) ≡ gate_for idt m)
            (sym ((==_iff n 3).0 t)) refl
      | inr t ↦
          rw (e, c, t)
            (elim (Bool-cases (not (n == 2) && not (n == 15))) [
              | inl o ↦ rw (o, ==_self n) refl
              | inr o ↦ rw o refl
            ])
    ]
  ]

  trap_init-gate_for : (idt : ℕ → Gatedesc) (n : ℕ) → trap_init idt n ≡ gate_for idt n
  unfolding trap_init
  trap_init-gate_for idt n = elim (Bool-cases (n == 48)) [
    | inl e ↦
        subst
          (λ (m : ℕ).
            update (init_gates 17 0 idt) 48 (setgate false gd_kt (vectors 48) 3) m ≡ gate_for idt m)
          (sym ((==_iff n 48).0 e)) refl
    | inr e ↦
        let low : (leb 0 n && ltb n (0 + 17)) ≡ ltb n 17 = ground arith in
        update_ne (init_gates 17 0 idt) 48 n _ (ground arith)
        ∙ init_gates-at 17 0 n idt
        ∙ rw low (low_gate idt n e)
  ]

-- A program in user mode may raise the trap with an `int` instruction.
abbrev pub user_may_raise : Gatedesc → Bool
user_may_raise g = g.gd_p == 1 && g.gd_dpl == 3

-- The address of a gate's handler.
abbrev pub handler : Gatedesc → ℕ
handler g = g.gd_off_31_16 * 2 ^ 16 + g.gd_off_15_0

-- What trap_init leaves for a trap: no gate where it had none, or an interrupt gate to the handler.
abbrev pub IsGate : (ℕ → ℕ) → Gatedesc → Gatedesc → ℕ → Bool → Type 0
IsGate vectors old g n false = (g ≡ old) × (user_may_raise g ≡ false)
IsGate vectors old g n true =
    (g.gd_p ≡ 1)
    × (g.gd_type ≡ 0xE)
    × (g.gd_sel ≡ gd_kt)
    × (handler g ≡ u32 (vectors n))
    × (user_may_raise g ≡ (n == 3 || n == 48))

made :
    (vectors : ℕ → ℕ) (idt : ℕ → Gatedesc) (n : ℕ)
    → (idt n).gd_p ≡ 0
    → (b : Bool)
    → IsGate vectors
        (idt n)
        (if b then setgate false gd_kt (vectors n) (if n == 3 || n == 48 then 3 else 0) else idt n)
        n
        b
made vectors idt n absent false = (refl, rw absent refl)
made vectors idt n absent true = (refl, refl, refl, omega arith, ground arith)

-- From a table without a gate for the trap n, trap_init makes one for the traps 0 to 16 but 2 and 15, and
-- for 48: a present interrupt gate into the kernel's code segment at the address of the
-- handler, which a program may raise by itself exactly for the breakpoint, 3, and the system call, 48. For
-- any other n it makes none.
pub trap_init-IsGate :
    (vectors : ℕ → ℕ) (idt : ℕ → Gatedesc) (n : ℕ)
    → (idt n).gd_p ≡ 0
    → IsGate vectors (idt n) (trap_init vectors idt n) n (has_gate vectors n)
trap_init-IsGate vectors idt n absent =
    rw (trap_init-gate_for vectors idt n) (made vectors idt n absent (has_gate vectors n))
