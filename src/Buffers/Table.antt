-- ===== src/Buffers/Table.antt =====
-- The table of registered buffers in src/opends_aisio.c: it stays well-formed, and registering and
-- deregistering a buffer change what is registered there and nothing else.
use opends_fork.Prelude.{
  ℕ, ◌≤◌, ◌++◌, ◌≡◌, sym, ap, ◌∙◌, true, false, none, some, List, [], ◌∷◌, ◌==◌, length,
  length-append, leb, arith, Bool-cases, Option-cases, inl, inr,
}
use mathlib.Core.Path.{subst}
use opends_fork.Prelude.Int.{ℤ}
use opends_fork.Errors.{opends_ok}
use opends_fork.Buffers.Array.{
  IsDistinct, find-removed, find-others, remove-IsDistinct, append-IsDistinct, find-append,
  length-remove,
}
use opends_fork.Buffers.Aisio.{
  BufEntry, mapped, unmapped, Driver, find, remove, opends_alloc, opends_free, opends_buf_register,
  opends_buf_deregister,
}
use opends_fork.Buffers.Ledger.{Op, alloc, free, register, deregister, run}

abbrev pub base_of : BufEntry → ℕ
base_of e = e.base

-- No base stands twice in the table, and the array has room for it.
pub record IsTable (bufs : List BufEntry) : Type 0 where
  pub distinct : IsDistinct base_of bufs
  pub room : length bufs ≤ 8192

-- The device allocator hands out no address that is in the table.
unfoldable pub IsFresh : Op → List BufEntry → Type 0
IsFresh (alloc buf size) bufs = find buf bufs ≡ none
IsFresh (free buf) bufs = bufs ≡ bufs
IsFresh (register rc buf size) bufs = bufs ≡ bufs
IsFresh (deregister buf) bufs = bufs ≡ bufs

put-IsTable :
    (bufs : List BufEntry) (e : BufEntry)
    → IsTable bufs
    → find e.base bufs ≡ none
    → leb 8192 (length bufs) ≡ false
    → IsTable (bufs ++ e ∷ [])
put-IsTable bufs e h new room = record {
  distinct = append-IsDistinct base_of bufs e h.distinct new;
  room = (let l = length-append bufs (e ∷ []) in ground arith);
}

drop-IsTable : (bufs : List BufEntry) (b : ℕ) → IsTable bufs → IsTable (remove b bufs)
drop-IsTable bufs b h = record {
  distinct = remove-IsDistinct base_of b bufs h.distinct;
  room = (let l = length-remove base_of b bufs in let r = h.room in omega arith);
}

-- Every operation on buffers keeps the table well-formed: an allocation, if the device allocator
-- hands out no address that is in the table, and the others always.
pub run-IsTable : (o : Op) (d : Driver) → IsTable d.bufs → IsFresh o d.bufs → IsTable (run o d).bufs
unfolding run IsFresh opends_alloc opends_free opends_buf_register opends_buf_deregister
run-IsTable (alloc buf size) d h new =
    let p = put-IsTable d.bufs (record { base = buf; length = size; owned = true }) h new in
    ground arith
run-IsTable (free buf) d h new =
    let p = drop-IsTable d.bufs buf h in
    elim (Option-cases (find buf d.bufs)) [ inl missing ↦ ground arith | inr (e, f) ↦ ground arith ]
run-IsTable (register rc buf size) d h new =
    let p = put-IsTable d.bufs (record { base = buf; length = size; owned = false }) h in
    elim (Option-cases (find buf d.bufs)) [ inl missing ↦ ground arith | inr (e, f) ↦ ground arith ]
run-IsTable (deregister buf) d h new =
    let p = drop-IsTable d.bufs buf h in
    elim (Option-cases (find buf d.bufs)) [ inl missing ↦ ground arith | inr (e, f) ↦ ground arith ]

abbrev pub new_entry : ℕ → ℕ → BufEntry
new_entry buf size = record { base = buf; length = size; owned = false }

register_ok :
    (rc : ℤ) (buf size : ℕ) (d : Driver)
    → (opends_buf_register rc buf size d).0 ≡ opends_ok
    → (find buf d.bufs ≡ none)
      × (d.opened ≡ true)
      × (d.xdev ≡ true)
      × ((buf == 0) ≡ false)
      × ((opends_buf_register rc buf size d).1
          ≡ record d { bufs = d.bufs ++ (new_entry buf size ∷ []); calls = mapped buf ∷ d.calls })
unfolding opends_buf_register
register_ok rc buf size d ok = elim (Option-cases (find buf d.bufs)) [
  | inl missing ↦ (missing, ground arith, ground arith, ground arith, ground arith)
  | inr (e, f) ↦ ground arith
]

deregister_new :
    (buf size : ℕ) (d : Driver)
    → d.opened ≡ true
    → d.xdev ≡ true
    → (buf == 0) ≡ false
    → find buf d.bufs ≡ some (new_entry buf size)
    → opends_buf_deregister buf d
      ≡ (opends_ok, record d { bufs = remove buf d.bufs; calls = unmapped buf ∷ d.calls })
unfolding opends_buf_deregister
deregister_new buf size d o x z f = ground arith

-- Where a well-formed table has no buffer at an address, and registering it succeeds, deregistering
-- it succeeds, and then every address is found, or not found, as before.
pub register-deregister :
    (rc : ℤ) (buf size : ℕ) (d : Driver)
    → IsTable d.bufs
    → (opends_buf_register rc buf size d).0 ≡ opends_ok
    → ((opends_buf_deregister buf (opends_buf_register rc buf size d).1).0 ≡ opends_ok)
      × ((c : ℕ)
          → find c (opends_buf_deregister buf (opends_buf_register rc buf size d).1).1.bufs
            ≡ find c d.bufs)
register-deregister rc buf size d h ok =
    let (missing, o, x, z, same) = register_ok rc buf size d ok in
    let grown = d.bufs ++ (new_entry buf size ∷ []) in
    let there = find-append base_of buf d.bufs (new_entry buf size) in
    let back : opends_buf_deregister buf (opends_buf_register rc buf size d).1 ≡ (
      opends_ok,
      record d { bufs = remove buf grown; calls = unmapped buf ∷ mapped buf ∷ d.calls },
    ) =
      ap (opends_buf_deregister buf) same
      ∙ deregister_new buf size (record d { bufs = grown; calls = mapped buf ∷ d.calls }) o x z
          (ground arith) in
    let wf = append-IsDistinct base_of d.bufs (new_entry buf size) h.distinct missing in
    (
      ap (λ p. p.0) back,
      λ c. ap (λ p. find c p.1.bufs) back ∙ elim (Bool-cases (buf == c)) [
        | inl y ↦
            (let gone = find-removed base_of buf grown wf in
              let q : buf ≡ c = ground arith in
              let missing' = subst (λ (z : ℕ). find z d.bufs ≡ none) q missing in
              subst (λ (z : ℕ). find z (remove buf grown) ≡ none) q gone ∙ sym missing')
        | inr n ↦
            find-others base_of buf c grown wf n
            ∙ (let a = find-append base_of c d.bufs (new_entry buf size) in
                elim (Option-cases (find c d.bufs)) [
                  | inl m ↦ ground arith
                  | inr (e, f) ↦ ground arith
                ])
      ],
    )
