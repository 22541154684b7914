-- ===== src/Engine/Pieces.antt =====
-- Where the bytes of a read come from: the pieces that the engine of src/opends_aisio.c has submitted, as a
-- map from the caller's addresses to the device's.
use opends_fork.Prelude.{
  ℕ, ◌+◌, ◌-◌, ◌≡◌, refl, Bool, ◌&&◌, Option, none, some, List, [], ◌∷◌, ◌++◌, ltb, leb,
  if◌then◌else◌, arith, Bool-cases, inl, inr,
}
use opends_fork.Engine.{
  Device, Piece, Move, Mode, BounceSlot, ReadOp, Completion, chunk, bounce, chunk_cb, bounce_cb,
  complete,
}

abbrev pub covers : Piece → ℕ → Bool
covers p a = leb p.dst a && ltb a (p.dst + p.len)

-- The device address of the byte that ends up at `a`.
unfoldable pub source_of : List Piece → ℕ → Option ℕ
source_of [] a = none
source_of (p ∷ ps) a = if covers p a then some (p.src + (a - p.dst)) else source_of ps a

-- The pieces bring `len` bytes from `src` on to `dst` on, and nothing else.
pub record Covers (ps : List Piece) (dst src len : ℕ) : Type 0 where
  pub at :
      (a : ℕ)
      → source_of ps a ≡ (if leb dst a && ltb a (dst + len) then some (src + (a - dst)) else none)

pub nil-Covers : (dst src : ℕ) → Covers [] dst src 0
unfolding source_of
nil-Covers dst src = record { at = λ a. ground arith }

pub one-Covers : (p : Piece) → Covers (p ∷ []) p.dst p.src p.len
unfolding source_of
one-Covers p = record { at = λ a. refl }

pub source_of-append :
    (ps qs : List Piece) (a : ℕ)
    → source_of (ps ++ qs) a ≡ elim (source_of ps a) [ none ↦ source_of qs a | some x ↦ some x ]
unfolding source_of
source_of-append [] qs a = refl
source_of-append (p ∷ ps) qs a =
    let ih = source_of-append ps qs a in
    elim (Bool-cases (covers p a)) [ inl y ↦ ground arith | inr n ↦ ground arith ]

pub append-Covers :
    (ps qs : List Piece) (dst src n m : ℕ)
    → Covers ps dst src n
    → Covers qs (dst + n) (src + n) m
    → Covers (ps ++ qs) dst src (n + m)
append-Covers ps qs dst src n m c c' = record {
  at = λ a. (let e = source_of-append ps qs a in let f = c.at a in let g = c'.at a in ground arith);
}

-- What decides where the bytes of a read end up: the mode, the bounce table and how many of its slots
-- are filled, the bounce buffer of the operation, and the commands.
abbrev pub View : Type 0
View = Mode × List BounceSlot × ℕ × ℕ × List Move

abbrev pub view : ReadOp → View
view op = (op.mode, op.bounces, op.n_bounces, op.bounce_buf, op.moves)

-- Completions change none of it.
pub complete-view :
    (d : Device) (op : ReadOp) (cs : List Completion) → view (complete d op cs) ≡ view op
unfolding complete chunk_cb bounce_cb
complete-view d op [] = refl
complete-view d op (chunk failed nlb ∷ cs) = complete-view d (chunk_cb d failed nlb op) cs
complete-view d op (bounce failed ∷ cs) = complete-view d (bounce_cb failed op) cs
