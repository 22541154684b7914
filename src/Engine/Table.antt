-- ===== src/Engine/Table.antt =====
-- The bounce table of a read of src/opends_aisio.c: what its copies bring to the caller's buffer once
-- the commands have read their blocks to the bounce buffers.
use opends_fork.Prelude.{
  ℕ, suc, ◌+◌, ◌-◌, ◌*◌, ◌≤◌, ◌<◌, ◌≡◌, refl, ap, Bool, true, false, ◌&&◌, ◌||◌, List, [], ◌∷◌,
  ◌++◌, ltb, leb, if◌then◌else◌, length, get_or, set, get_or-set, arith,
}
use opends_fork.Engine.{Piece, Move, direct, staged, Mode, stream, async, BounceSlot, ReadOp}
use opends_fork.Engine.Pieces.{View}

abbrev overlap : Piece → Piece → Bool
overlap p q = ltb p.dst (q.dst + q.len) && ltb q.dst (p.dst + p.len)

-- Does a later command for a bounce buffer write over what `c` has read?
unfoldable pub overwritten : Piece → List Move → Bool
overwritten c [] = false
overwritten c (direct p ∷ ms) = overwritten c ms
overwritten c (staged i q ∷ ms) = overlap c q || overwritten c ms

abbrev pub nowhere : Piece
nowhere = record { src = 0; dst = 0; len = 0 }

abbrev pub no_slot : BounceSlot
no_slot = record { dst = 0; src = 0; nbytes = 0 }

-- What the copy of a slot brings from the block that the command `c` has read; nothing if the copy
-- reaches outside the block.
unfoldable pub brought : BounceSlot → Piece → Piece
brought b c =
    if leb c.dst b.src && leb (b.src + b.nbytes) (c.dst + c.len)
    then record { src = c.src + (b.src - c.dst); dst = b.dst; len = b.nbytes }
    else nowhere

-- What the commands and the copies of the table bring to the caller's buffer.
unfoldable pub resolve : List BounceSlot → List Move → List Piece
resolve bs [] = []
resolve bs (direct p ∷ ms) = p ∷ resolve bs ms
resolve bs (staged i c ∷ ms) =
    (if overwritten c ms then nowhere else brought (get_or bs i no_slot) c) ∷ resolve bs ms

abbrev pub resolved_view : View → List Piece
resolved_view v = resolve v.1 v.4

abbrev pub resolved : ReadOp → List Piece
resolved op = resolve op.bounces op.moves

abbrev pub base : Mode → ℕ → ℕ
base async buf = buf
base (stream bounce_buf) buf = bounce_buf

-- Each command for a bounce buffer has one of the first `n` slots and ends at `limit` at most.
unfoldable pub Below : ℕ → ℕ → List Move → Type 0
Below n limit [] = Unit {0}
Below n limit (direct p ∷ ms) = Below n limit ms
Below n limit (staged i c ∷ ms) = (i < n) × (c.dst + c.len ≤ limit) × Below n limit ms

-- The commands for bounce buffers.
unfoldable pub count_staged : List Move → ℕ
count_staged [] = 0
count_staged (direct p ∷ ms) = count_staged ms
count_staged (staged i c ∷ ms) = suc (count_staged ms)

-- The table has two slots, of which as many are filled as there were commands for bounce buffers, and
-- these have read to the filled part of the buffer.
pub record IsTable (lba_size : ℕ) (v : View) : Type 0 where
  pub slots : length v.1 ≡ 2
  pub filled : v.2 ≡ count_staged v.4
  pub below : Below v.2 (base v.0 v.3 + v.2 * lba_size) v.4

pub Below-mono :
    (n limit n' limit' : ℕ) (ms : List Move)
    → n ≤ n'
    → limit ≤ limit'
    → Below n limit ms
    → Below n' limit' ms
unfolding Below
Below-mono n limit n' limit' [] le le' b = tt
Below-mono n limit n' limit' (direct p ∷ ms) le le' b = Below-mono n limit n' limit' ms le le' b
Below-mono n limit n' limit' (staged i c ∷ ms) le le' (lt, fits, b) =
    (omega arith, omega arith, Below-mono n limit n' limit' ms le le' b)

pub Below-append :
    (n limit : ℕ) (ms qs : List Move)
    → Below n limit ms
    → Below n limit qs
    → Below n limit (ms ++ qs)
unfolding Below
Below-append n limit [] qs b c = c
Below-append n limit (direct p ∷ ms) qs b c = Below-append n limit ms qs b c
Below-append n limit (staged i q ∷ ms) qs (lt, fits, b) c =
    (lt, fits, Below-append n limit ms qs b c)

pub count_staged-append :
    (ms qs : List Move) → count_staged (ms ++ qs) ≡ count_staged ms + count_staged qs
unfolding count_staged
count_staged-append [] qs = omega arith
count_staged-append (direct p ∷ ms) qs = count_staged-append ms qs
count_staged-append (staged i c ∷ ms) qs = omega (arith, count_staged-append ms qs)

overwritten-direct :
    (c p : Piece) (ms : List Move) → overwritten c (ms ++ (direct p ∷ [])) ≡ overwritten c ms
unfolding overwritten
overwritten-direct c p [] = refl
overwritten-direct c p (direct q ∷ ms) = overwritten-direct c p ms
overwritten-direct c p (staged i q ∷ ms) = ap (λ b. overlap c q || b) (overwritten-direct c p ms)

overwritten-staged :
    (c q : Piece) (n : ℕ) (ms : List Move)
    → c.dst + c.len ≤ q.dst
    → overwritten c (ms ++ (staged n q ∷ [])) ≡ overwritten c ms
unfolding overwritten
overwritten-staged c q n [] apart = ground arith
overwritten-staged c q n (direct p ∷ ms) apart = overwritten-staged c q n ms apart
overwritten-staged c q n (staged i p ∷ ms) apart =
    ap (λ b. overlap c p || b) (overwritten-staged c q n ms apart)

-- A command for the caller's buffer brings its blocks there.
pub resolve-direct :
    (bs : List BounceSlot) (p : Piece) (ms : List Move)
    → resolve bs (ms ++ (direct p ∷ [])) ≡ resolve bs ms ++ (p ∷ [])
unfolding resolve
resolve-direct bs p [] = refl
resolve-direct bs p (direct q ∷ ms) = ap (λ ps. q ∷ ps) (resolve-direct bs p ms)
resolve-direct bs p (staged i c ∷ ms) = rw (overwritten-direct c p ms, resolve-direct bs p ms) refl

-- A command for a bounce buffer past the filled part, whose slot is the next one, brings what the copy
-- of this slot takes from it, and leaves what the other slots bring.
pub resolve-staged :
    (bs : List BounceSlot) (n limit : ℕ) (b : BounceSlot) (c : Piece) (ms : List Move)
    → n < length bs
    → limit ≤ c.dst
    → Below n limit ms
    → resolve (set bs n b) (ms ++ (staged n c ∷ [])) ≡ resolve bs ms ++ (brought b c ∷ [])
unfolding resolve overwritten Below
resolve-staged bs n limit b c [] room past below =
    let e = get_or-set bs n n b no_slot room in
    let same : get_or (set bs n b) n no_slot ≡ b = ground arith in rw same refl
resolve-staged bs n limit b c (direct q ∷ ms) room past below =
    ap (λ ps. q ∷ ps) (resolve-staged bs n limit b c ms room past below)
resolve-staged bs n limit b c (staged i q ∷ ms) room past (lt, fits, below) =
    let e = get_or-set bs n i b no_slot room in
    let other : get_or (set bs n b) i no_slot ≡ get_or bs i no_slot = ground arith in
    rw
      (
        overwritten-staged q c n ms (omega arith),
        other,
        resolve-staged bs n limit b c ms room past below,
      )
      refl

pub brought_lem :
    (buf dst slba src_off nbytes lba_size : ℕ)
    → src_off + nbytes ≤ lba_size
    → brought
        (record { dst = dst; src = buf + src_off; nbytes = nbytes })
        (record { src = slba * lba_size; dst = buf; len = lba_size })
      ≡ record { src = slba * lba_size + src_off; dst = dst; len = nbytes }
unfolding brought
brought_lem buf dst slba src_off nbytes lba_size fits =
    let inside : (leb buf (buf + src_off) && leb (buf + src_off + nbytes) (buf + lba_size)) ≡ true =
      ground arith in
    let off : (buf + src_off) - buf ≡ src_off = omega arith in rw (inside, off) refl
