-- ===== src/Console.antt =====
-- The console's input: cons_intr and cons_getc of kern/console.c. The characters that a device's
-- `proc` delivers before it returns -1 are a list.
pub mod Queue
pub mod Keymaps
pub mod Keyboard
pub mod Keys
pub mod Display
pub mod Screen
use lab3a.Base.{ℕ, ◌+◌, ◌%◌, ◌≡◌, List, [], ◌∷◌, ◌==◌, if◌then◌else◌, update}
use lab3a.Machine.{Kernel, Cons, M, pure, gets, modify, ◌>>=◌, ◌>>◌}

abbrev pub consbufsize : ℕ
consbufsize = 512

-- pos + 1, and 0 at the end of the buffer
abbrev pub next_pos : ℕ → ℕ
next_pos pos = if pos + 1 == consbufsize then 0 else pos + 1

-- The body of cons_intr's loop.
abbrev pub cons_put : ℕ → Cons → Cons
cons_put c s =
    if c == 0 then s else record s { buf = update s.buf s.wpos (c % 256); wpos = next_pos s.wpos }

pub cons_intr : List ℕ → M (Unit {0})
cons_intr [] = pure tt
cons_intr (c ∷ cs) = modify (λ k. record k { cons = cons_put c k.cons }) >> cons_intr cs

-- cons_getc, with what the serial port and the keyboard deliver when it polls them
unfoldable pub cons_getc : List ℕ → List ℕ → M ℕ
unfolding cons_intr
cons_getc serial kbd = do
  cons_intr serial
  cons_intr kbd
  s ← gets (λ k. k.cons)
  if s.rpos == s.wpos then pure 0 else do
    modify (λ k. record k { cons = record k.cons { rpos = next_pos k.cons.rpos } })
    pure (s.buf s.rpos)
