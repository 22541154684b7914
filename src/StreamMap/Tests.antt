-- ===== src/StreamMap/Tests.antt =====
-- The map of src/ds_stream_map.h at small tables.
use opends_fork.Prelude.{
  ℕ, zero, suc, ◌≡◌, ◌≢◌, refl, some, [], ◌∷◌, arith, if◌then◌else◌, ◌==◌, replicate, set,
}
use opends_fork.Prelude.Int.{pos}
use opends_fork.StreamMap.{Table, empty_entry, slot, hash, get, put, get_seen}
use opends_fork.StreamMap.Invariant.{IsPlaced, replicate-IsPlaced}
use opends_fork.StreamMap.Insert.{get-put}
use opends_fork.StreamMap.Concurrent.{Grows, Store, get_seen-registered}

abbrev fresh : Table
fresh = replicate 4 empty_entry

fresh-IsPlaced : IsPlaced 2 fresh
fresh-IsPlaced = replicate-IsPlaced 2 (omega arith)

-- One stream at 0x1000 in slot 0.
abbrev one_stream : Table
one_stream = record { key = 0x1000; idx = pos 7 } ∷ empty_entry ∷ empty_entry ∷ empty_entry ∷ []

put-one : put fresh 3 0x1000 (pos 7) ≡ some one_stream
unfolding put slot hash
put-one = refl

get-put_example :
    IsPlaced 2 one_stream
    × ((r : ℕ) → r ≢ 0 → get one_stream 3 r ≡ (if r == 0x1000 then pos 7 else get fresh 3 r))
unfolding get
get-put_example =
    get-put fresh-IsPlaced 0x1000 (pos 7) (omega arith) (unfold get get_seen slot hash in refl) refl
      put-one

one_stream-IsPlaced : IsPlaced 2 one_stream
one_stream-IsPlaced =
    (get-put fresh-IsPlaced 0x1000 (pos 7) (omega arith) (unfold get get_seen slot hash in refl)
      refl put-one).0

-- Before the second probe another thread has written the index half of an entry.
abbrev racing : ℕ → Table
racing zero = one_stream
racing (suc p) = set one_stream 1 (record { key = 0; idx = pos 9 })

racing-Grows : (p : ℕ) → Grows one_stream (racing p)
racing-Grows zero = Grows.same
racing-Grows (suc p) = Grows.more Grows.same (Store.store_idx 1 (pos 9) refl (omega arith))

get-one : get one_stream 3 0x1000 ≡ pos 7
unfolding get get_seen slot hash
get-one = refl

get_seen-registered_example : get_seen racing 3 0x1000 ≡ get one_stream 3 0x1000
get_seen-registered_example =
    get_seen-registered one_stream-IsPlaced racing racing-Grows 0x1000 (omega arith)
      (λ e. cc (get-one, e))
