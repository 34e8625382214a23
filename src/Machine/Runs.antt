-- ===== src/Machine/Runs.antt =====
-- What holds of a run that returns.
use mathlib.Core.Path.{◌≡◌, refl}
use lab3a.Machine.{
  M, and_then, ◌>>=◌, Kernel, Run, done, panicked, monitor_loop, user_mode, out_of_fuel, Trapframe,
  Panic,
}

-- The run returns, and its result and final state satisfy P: total correctness.
abbrev pub Returns : {A : Type 0} → (A → Kernel → Type 0) → Run A → Type 0
Returns P (done a k) = P a k
Returns P (panicked p k) = ⊥
Returns P (monitor_loop k) = ⊥
Returns P (user_mode t k) = ⊥
Returns P out_of_fuel = ⊥

-- The run ends in the monitor, or in user mode with a frame, in a state that satisfies P.
abbrev pub Stays : {A : Type 0} → (Kernel → Type 0) → Run A → Type 0
Stays P (done a k) = ⊥
Stays P (panicked p k) = ⊥
Stays P (monitor_loop k) = P k
Stays P (user_mode t k) = ⊥
Stays P out_of_fuel = ⊥

abbrev pub Leaves : {A : Type 0} → (Trapframe → Kernel → Type 0) → Run A → Type 0
Leaves P (done a k) = ⊥
Leaves P (panicked p k) = ⊥
Leaves P (monitor_loop k) = ⊥
Leaves P (user_mode t k) = P t k
Leaves P out_of_fuel = ⊥

-- The run ends in this panic.
abbrev pub Panics : {A : Type 0} → Panic → Run A → Type 0
Panics p (done a k) = ⊥
Panics p (panicked q k) = q ≡ p
Panics p (monitor_loop k) = ⊥
Panics p (user_mode t k) = ⊥
Panics p out_of_fuel = ⊥

pub Stays-bind :
    {A B : Type 0} (P : A → Kernel → Type 0) (Q : Kernel → Type 0) (r : Run A) (f : A → M B)
    → Returns P r
    → ((a : A) (k : Kernel) → P a k → Stays Q (f a k))
    → Stays Q (and_then r f)
Stays-bind P Q (done a k) f h next = next a k h
Stays-bind P Q (panicked p k) f h next = h
Stays-bind P Q (monitor_loop k) f h next = absurd h
Stays-bind P Q (user_mode t k) f h next = h
Stays-bind P Q out_of_fuel f h next = h

pub and_then_assoc :
    {A B C : Type 0} (r : Run A) (f : A → M B) (g : B → M C)
    → and_then r (λ a. f a >>= g) ≡ and_then (and_then r f) g
and_then_assoc (done a k) f g = refl
and_then_assoc (panicked p k) f g = refl
and_then_assoc (monitor_loop k) f g = refl
and_then_assoc (user_mode t k) f g = refl
and_then_assoc out_of_fuel f g = refl

pub Returns-mono :
    {A : Type 0} (P Q : A → Kernel → Type 0) (r : Run A)
    → ((a : A) (k : Kernel) → P a k → Q a k)
    → Returns P r
    → Returns Q r
Returns-mono P Q (done a k) f h = f a k h
Returns-mono P Q (panicked p k) f h = h
Returns-mono P Q (monitor_loop k) f h = h
Returns-mono P Q (user_mode t k) f h = h
Returns-mono P Q out_of_fuel f h = h

-- A run that returns goes on with what follows.
pub Returns-bind :
    {A B : Type 0} (P : A → Kernel → Type 0) (Q : B → Kernel → Type 0) (r : Run A) (f : A → M B)
    → Returns P r
    → ((a : A) (k : Kernel) → P a k → Returns Q (f a k))
    → Returns Q (and_then r f)
Returns-bind P Q (done a k) f h next = next a k h
Returns-bind P Q (panicked p k) f h next = h
Returns-bind P Q (monitor_loop k) f h next = h
Returns-bind P Q (user_mode t k) f h next = h
Returns-bind P Q out_of_fuel f h next = h

-- A run that stays in the monitor never comes to what follows.
pub Stays-first :
    {A B : Type 0} (P Q : Kernel → Type 0) (r : Run A) (f : A → M B)
    → ((k : Kernel) → P k → Q k)
    → Stays P r
    → Stays Q (and_then r f)
Stays-first P Q (done a k) f g h = absurd h
Stays-first P Q (panicked p k) f g h = h
Stays-first P Q (monitor_loop k) f g h = g k h
Stays-first P Q (user_mode t k) f g h = h
Stays-first P Q out_of_fuel f g h = h

pub Stays-mono :
    {A : Type 0} (P Q : Kernel → Type 0) (r : Run A)
    → ((k : Kernel) → P k → Q k)
    → Stays P r
    → Stays Q r
Stays-mono P Q (done a k) g h = h
Stays-mono P Q (panicked p k) g h = h
Stays-mono P Q (monitor_loop k) g h = g k h
Stays-mono P Q (user_mode t k) g h = h
Stays-mono P Q out_of_fuel g h = h
