-- ===== src/Engine/Request.antt =====
-- What a whole read brings to memory: the loop over the extents and `start_read_op` of
-- src/opends_aisio.c, against the map from the file's bytes to the device's that the extents give.
use opends_fork.Prelude.{
  ℕ, length, ◌+◌, ◌-◌, ◌*◌, ◌^◌, ◌≤◌, ◌<◌, ◌≡◌, Bool, false, ◌&&◌, Option, none, some, List, [],
  ◌∷◌, ◌++◌, ltb, leb, if◌then◌else◌,
}
use opends_fork.Engine.{Extent, Piece, ReadOp, Step}
use opends_fork.Engine.Pieces.{source_of, view}
use opends_fork.Engine.Table.{IsTable, resolved}

-- Does the extent hold the file's byte `x`?
abbrev pub holds : Extent → ℕ → Bool
holds e x = leb e.file_offset x && ltb x (e.file_offset + e.length)

-- Where the file's byte `x` lies on the device; a byte in no extent is in a hole.
unfoldable pub place : ℕ → List Extent → ℕ → Option ℕ
place lba_size [] x = none
place lba_size (e ∷ es) x =
    if holds e x then some (e.slba * lba_size + (x - e.file_offset)) else place lba_size es x

-- Extents in the order of their offsets, from `lo` on, which end below 2 ^ 64.
unfoldable pub IsMap : ℕ → List Extent → Type 0
IsMap lo [] = Unit {0}
IsMap lo (e ∷ es) =
    (lo ≤ e.file_offset)
    × (e.file_offset + e.length < 2 ^ 64)
    × (e.slba + e.length + 1 < 2 ^ 64)
    × IsMap e.file_offset es

-- Once the commands are done and the copies of the bounce table are made, the bytes of the file from
-- `req_start` up to `req_end` are in the buffer from `dst_base` on: those that lie in an extent, from
-- their place, and nothing else. The table is well-formed.
pub record Serves (lba_size : ℕ) (exts : List Extent) (req_start req_end dst_base : ℕ)
    (op' : ReadOp) : Type 0 where
  pub table : IsTable lba_size (view op')
  pub source :
      (a : ℕ)
      → source_of (resolved op') a ≡ (
          if leb dst_base a && ltb (req_start + (a - dst_base)) req_end
          then place lba_size exts (req_start + (a - dst_base))
          else none)

-- What the commands submitted between two states of an operation bring to the buffer.
record Brings (lba_size : ℕ) (exts : List Extent) (req_start req_end dst_base : ℕ) (op op' : ReadOp)
    : Type 0 where
  pieces : List Piece
  moves :
      IsTable lba_size (view op)
      → IsTable lba_size (view op') × (resolved op' ≡ resolved op ++ pieces)
  source :
      (a : ℕ)
      → source_of pieces a ≡ (
          if leb dst_base a && ltb (req_start + (a - dst_base)) req_end
          then place lba_size exts (req_start + (a - dst_base))
          else none)

abbrev succeeded : Step → Bool
succeeded none = false
succeeded (some (b, op, ans)) = b
