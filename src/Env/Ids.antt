-- ===== src/Env/Ids.antt =====
-- The ids that env_alloc of kern/env.c makes.
use lab3a.Base.{
  ℕ, ◌+◌, ◌*◌, ◌/◌, ◌^◌, ◌<◌, ◌≡◌, ◌≢◌, ◌∙◌, arith, ◌==◌, ltb, ◌||◌, if◌then◌else◌, bit_or_apart,
  ap, sym, bit_or,
}
use lab3a.Mmu.{u32, is_negative}
use lab3a.Env.{envx, next_id}

-- The generation: four times 1024 more than before, or the first one where that is no positive int.
abbrev pub generation : ℕ → ℕ
generation id = if ltb (id / 1024 * 1024 + 4096) (2 ^ 31) then id / 1024 * 1024 + 4096 else 4096

multiple : (id : ℕ) → generation id ≡ generation id / 1024 * 2 ^ 10
multiple id = ground arith

computed :
    (id : ℕ)
    → id < 2 ^ 31
    → let g = u32 (id + 2 ^ 12) / 1024 * 1024 in
      (if is_negative g || g == 0 then 2 ^ 12 else g) ≡ generation id
computed id h = ground arith

next_id-generation : (id e : ℕ) → id < 2 ^ 31 → e < 1024 → next_id id e ≡ generation id + e
unfolding next_id
next_id-generation id e h he =
    ap (λ (g : ℕ). bit_or g e) (computed id h ∙ multiple id)
    ∙ bit_or_apart 10 (generation id / 1024) e he
    ∙ ap (λ (g : ℕ). g + e) (sym (multiple id))

-- For the id of a record, 0 or an earlier one, and an index below NENV: the new id is a positive
-- int, ENVX reads the index from it, and it differs from the earlier id.
pub next_id_lem :
    (id e : ℕ)
    → id < 2 ^ 31
    → e < 1024
    → (0 < next_id id e) × (next_id id e < 2 ^ 31) × (envx (next_id id e) ≡ e) × (next_id id e ≢ id)
unfolding envx
next_id_lem id e h he = rw (next_id-generation id e h he) (ground arith)
