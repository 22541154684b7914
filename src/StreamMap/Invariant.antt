-- ===== src/StreamMap/Invariant.antt =====
-- The map of src/ds_stream_map.h refines a partial function from streams to indices.
use native.Mathlib.Nat.{mod-eq_of_lt, mod-eq-sub-mod, mod-lt}
use opends_fork.Prelude.{
  ℕ, zero, suc, ◌+◌, ◌-◌, ◌%◌, ◌^◌, ◌≤◌, ◌<◌, ◌≡◌, ◌≢◌, ◌⊎◌, inl, inr, sym, ap, ◌∙◌, false, [], ◌∷◌,
  arith, leb, leb→le, ◌==◌, ==_iff, Bool-cases, length, replicate, get_or-replicate,
  length-replicate,
}
use mathlib.Core.Path.{subst}
use opends_fork.Prelude.Bits.{bit_and_mask, two_pow_pos}
use opends_fork.Prelude.Int.{negsuc, is_negative}
use opends_fork.StreamMap.{Entry, Table, empty_entry, at, slot, hash, cap_of, get, get_seen}
use opends_fork.StreamMap.Probe.{get_seen-found, get_seen-absent}

abbrev pub mask_of : ℕ → ℕ
mask_of k = 2 ^ k - 1

-- Index `i` lies on the probe sequence of the stream `s`, with no empty slot and no `s` before it.
pub record Home (k : ℕ) (t : Table) (s i : ℕ) : Type 0 where
  pub probe : ℕ
  pub in_cap : probe < 2 ^ k
  pub lands : slot (hash s (mask_of k)) (mask_of k) probe ≡ i
  pub passes :
      (q : ℕ)
      → q < probe
      → ((at t (slot (hash s (mask_of k)) (mask_of k) q)).key ≢ s)
        × ((at t (slot (hash s (mask_of k)) (mask_of k) q)).key ≢ 0)

-- A table of 2 ^ k entries in which every key is found where it stands, with indices that are none
-- of the error values.
pub record IsPlaced (k : ℕ) (t : Table) : Type 0 where
  pub width : length t ≡ 2 ^ k
  pub small : 2 ^ k ≤ 2 ^ 31
  pub placed : (i : ℕ) → (at t i).key ≢ 0 → Home k t (at t i).key i
  pub counts : (i : ℕ) → (at t i).key ≢ 0 → is_negative (at t i).idx ≡ false

pub slot-lt : (k h p : ℕ) → slot h (mask_of k) p < 2 ^ k
unfolding slot
slot-lt k h p = rw (bit_and_mask k ((h + p) % 2 ^ 32)) (mod-lt _ (two_pow_pos k))

pub hash-lt : (k s : ℕ) → hash s (mask_of k) < 2 ^ k
unfolding hash
hash-lt k s = rw bit_and_mask (mod-lt _ (two_pow_pos k))

pub cap_of-mask : (k : ℕ) → 2 ^ k ≤ 2 ^ 31 → cap_of (mask_of k) ≡ 2 ^ k
cap_of-mask k small = omega (arith, two_pow_pos k)

-- Every index is on every probe sequence.
pub slot-onto :
    (k h i : ℕ)
    → 2 ^ k ≤ 2 ^ 31
    → h < 2 ^ k
    → i < 2 ^ k
    → (d : ℕ) × (d < 2 ^ k) × (slot h (mask_of k) d ≡ i)
unfolding slot
slot-onto k h i small hh hi = elim (Bool-cases (leb h i)) [
  | inl up ↦
      let le = leb→le h i up in
      (
        i - h,
        omega arith,
        rw (bit_and_mask k ((h + (i - h)) % 2 ^ 32)) (
            omega (
              arith,
              mod-eq_of_lt {n = i} {m = 2 ^ k} hi,
              ap (λ x. x % 2 ^ k) (near h i le small hi),
            )),
      )
  | inr down ↦
      let lt : i < h = ground arith in
      (
        i + 2 ^ k - h,
        omega arith,
        rw (bit_and_mask k ((h + (i + 2 ^ k - h)) % 2 ^ 32)) (
            ap (λ x. x % 2 ^ k) (far k h i lt small hh)
            ∙ mod-eq-sub-mod {n = i + 2 ^ k} {m = 2 ^ k} (omega arith)
            ∙ ap (λ x. x % 2 ^ k) (back k i)
            ∙ mod-eq_of_lt hi),
      )
]
  where
    near : (h i : ℕ) → h ≤ i → 2 ^ k ≤ 2 ^ 31 → i < 2 ^ k → (h + (i - h)) % 2 ^ 32 ≡ i
    near h i le small hi = omega arith

    far :
        (k h i : ℕ)
        → i < h
        → 2 ^ k ≤ 2 ^ 31
        → h < 2 ^ k
        → (h + (i + 2 ^ k - h)) % 2 ^ 32 ≡ i + 2 ^ k
    far k h i lt small hh = omega arith

    back : (k i : ℕ) → i + 2 ^ k - 2 ^ k ≡ i
    back k i = omega arith

-- A stream stands in the table or it does not.
pub occurs :
    (t : Table) (s : ℕ) → s ≢ 0 → ((i : ℕ) × ((at t i).key ≡ s)) ⊎ ((i : ℕ) → (at t i).key ≢ s)
occurs [] s h = inr (λ i e. h (sym e))
occurs (e ∷ t) s h = elim (Bool-cases (e.key == s)) [
  | inl here ↦ inl (0, (==_iff e.key s).0 here)
  | inr there ↦ elim (occurs t s h) [
    | inl (i, found) ↦ inl (suc i, found)
    | inr none_there ↦ inr (λ i. nowhere e there none_there i)
  ]
]
  where
    nowhere :
        (e : Entry)
        → (e.key == s) ≡ false
        → ((i : ℕ) → (at t i).key ≢ s)
        → (i : ℕ) → (at (e ∷ t) i).key ≢ s
    nowhere e there none_there zero = ground arith
    nowhere e there none_there (suc i) = none_there i

module _ {k : ℕ} {t : Table} (v : IsPlaced k t) where
  get-Home : (s i : ℕ) → (at t i).key ≡ s → Home k t s i → get t (mask_of k) s ≡ (at t i).idx
  unfolding get get_seen
  get-Home s i e home = rw (cap_of-mask k v.small) (
      get_seen-found (λ _. t) (mask_of k) s (hash s (mask_of k)) (2 ^ k) home.probe home.passes
        home.in_cap (ap (λ j. (at t j).key) home.lands ∙ e)
      ∙ ap (λ j. (at t j).idx) home.lands)

  pub Home-key : (i s : ℕ) → (at t i).key ≡ s → s ≢ 0 → Home k t s i
  Home-key i s e nonzero = subst (λ x. Home k t x i) e (v.placed i (λ z. nonzero (sym e ∙ z)))

  -- A stream that stands somewhere in the table is found, with the index stored beside it.
  pub get-present : (i s : ℕ) → (at t i).key ≡ s → s ≢ 0 → get t (mask_of k) s ≡ (at t i).idx
  get-present i s e nonzero = get-Home s i e (Home-key i s e nonzero)

  pub get-absent : (s : ℕ) → ((i : ℕ) → (at t i).key ≢ s) → get t (mask_of k) s ≡ negsuc 0
  unfolding get get_seen
  get-absent s none_there =
      get_seen-absent (λ _. t) (mask_of k) s (hash s (mask_of k)) (cap_of (mask_of k))
        (λ q. none_there (slot (hash s (mask_of k)) (mask_of k) q))

  -- A lookup that misses means that the stream stands nowhere.
  pub absent_of_miss : (s : ℕ) → s ≢ 0 → get t (mask_of k) s ≡ negsuc 0 → (i : ℕ) → (at t i).key ≢ s
  absent_of_miss s nonzero miss i e = ground (arith, get-present i s e nonzero, v.counts i)

-- The zeroed table that the driver starts with.
pub replicate-IsPlaced : (k : ℕ) → 2 ^ k ≤ 2 ^ 31 → IsPlaced k (replicate (2 ^ k) empty_entry)
replicate-IsPlaced k small = record {
  width = length-replicate (2 ^ k) empty_entry;
  small = small;
  placed = λ i full. absurd (full (ap (λ x. x.key) (get_or-replicate (2 ^ k) i empty_entry)));
  counts = λ i full. absurd (full (ap (λ x. x.key) (get_or-replicate (2 ^ k) i empty_entry)));
}
