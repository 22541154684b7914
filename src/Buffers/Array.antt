-- ===== src/Buffers/Array.antt =====
-- The table of registered buffers as a set of bases: a removal forgets one base, keeps every other
-- entry, and leaves no base twice (the arrays of src/opends_aisio.c and src/opends_ref.c).
use opends_fork.Prelude.{
  ℕ, suc, ◌+◌, ◌-◌, ◌++◌, ◌≤◌, ◌≡◌, refl, false, none, some, List, [], ◌∷◌, ◌==◌, if◌then◌else◌,
  length, inl, inr, arith, Bool-cases, Option-cases,
}
use mathlib.Core.Path.{subst, ap as cong}
use opends_fork.Buffers.{find_buf, last_of, all_but_last, fill_place, remove_buf}

pub length-all_but_last {ℓ} :
    {A : Type ℓ} (e : A) (es : List A) → length (all_but_last e es) ≡ length es
unfolding all_but_last
length-all_but_last e [] = refl
length-all_but_last e (f ∷ fs) = let ih = length-all_but_last f fs in grind arith

module _ {ℓ} {A : Type ℓ} (base : A → ℕ) where
  -- How often a base occurs.
  unfoldable pub count : ℕ → List A → ℕ
  count b [] = 0
  count b (e ∷ es) = if base e == b then suc (count b es) else count b es

  -- No base is registered twice.
  pub record IsDistinct (es : List A) : Type 0 where
    pub once : (b : ℕ) → count b es ≤ 1

  pub count-find : (b : ℕ) (es : List A) (e : A) → find_buf base b es ≡ some e → 1 ≤ count b es
  unfolding find_buf count
  count-find b [] e h = ground arith
  count-find b (f ∷ es) e h = elim (Bool-cases (base f == b)) [
    | inl y ↦ ground arith
    | inr n ↦ let ih = count-find b es e (ground arith) in ground arith
  ]

  pub find-count : (b : ℕ) (es : List A) → 1 ≤ count b es → (e : A) × (find_buf base b es ≡ some e)
  unfolding find_buf count
  find-count b [] h = ground arith
  find-count b (f ∷ es) h = elim (Bool-cases (base f == b)) [
    | inl y ↦ (f, ground arith)
    | inr n ↦ let (e, p) = find-count b es (ground arith) in (e, ground arith)
  ]

  pub count-none : (es : List A) (b : ℕ) → find_buf base b es ≡ none → count b es ≡ 0
  count-none es b h = elim (Bool-cases (count b es == 0)) [
    | inl y ↦ ground arith
    | inr n ↦ (let (e, p) = find-count b es (ground arith) in ground arith)
  ]

  pub count-fill :
      (b : ℕ) (e : A) (es : List A) → count b (last_of e es ∷ all_but_last e es) ≡ count b (e ∷ es)
  unfolding count last_of all_but_last
  count-fill b e [] = refl
  count-fill b e (f ∷ fs) = let ih = count-fill b f fs in ground arith

  pub find-base : (b : ℕ) (es : List A) (e : A) → find_buf base b es ≡ some e → base e ≡ b
  unfolding find_buf
  find-base b [] e h = ground arith
  find-base b (f ∷ es) e h = elim (Bool-cases (base f == b)) [
    | inl y ↦ ground arith
    | inr n ↦ find-base b es e (ground arith)
  ]

  pub find-fill :
      (b : ℕ) (e : A) (es : List A)
      → count b (e ∷ es) ≤ 1
      → find_buf base b (last_of e es ∷ all_but_last e es) ≡ find_buf base b (e ∷ es)
  unfolding find_buf last_of all_but_last count
  find-fill b e [] h = refl
  find-fill b e (f ∷ fs) h =
      let ih = find-fill b f fs (ground arith) in
      let c = count-find b (f ∷ fs) (last_of f fs) in
      elim (Bool-cases (base e == b)) [ inl y ↦ ground arith | inr n ↦ ground arith ]

  pub IsDistinct-tail : (e : A) (es : List A) → IsDistinct (e ∷ es) → IsDistinct es
  unfolding count
  IsDistinct-tail e es h = record { once = λ b. (let o = h.once b in ground arith) }

  pub count-remove :
      (b c : ℕ) (es : List A)
      → count c (remove_buf base b es) ≡ (if b == c then count c es - 1 else count c es)
  unfolding count remove_buf fill_place
  count-remove b c [] = ground arith
  count-remove b c (e ∷ []) = ground arith
  count-remove b c (e ∷ f ∷ fs) =
      let k = count-fill c f fs in
      let ih = count-remove b c (f ∷ fs) in
      elim (Bool-cases (base e == b)) [ inl y ↦ ground arith | inr n ↦ ground arith ]

  pub remove-IsDistinct : (b : ℕ) (es : List A) → IsDistinct es → IsDistinct (remove_buf base b es)
  remove-IsDistinct b es h = record {
    once = λ c. (let o = h.once c in let k = count-remove b c es in ground arith);
  }

  -- The removed base is not found.
  pub find-removed :
      (b : ℕ) (es : List A) → IsDistinct es → find_buf base b (remove_buf base b es) ≡ none
  find-removed b es h =
      let o = h.once b in
      let k = count-remove b b es in
      elim (Option-cases (find_buf base b (remove_buf base b es))) [
        | inl missing ↦ missing
        | inr (e, p) ↦ (let c = count-find b (remove_buf base b es) e p in ground arith)
      ]

  -- The other entries are found as before.
  pub find-others :
      (b c : ℕ) (es : List A)
      → IsDistinct es
      → (b == c) ≡ false
      → find_buf base c (remove_buf base b es) ≡ find_buf base c es
  unfolding find_buf remove_buf fill_place count
  find-others b c [] h n = refl
  find-others b c (e ∷ []) h n = ground arith
  find-others b c (e ∷ f ∷ fs) h n =
      let t = (IsDistinct-tail e (f ∷ fs) h).once c in
      let fill = find-fill c f fs t in
      let ih = find-others b c (f ∷ fs) (IsDistinct-tail e (f ∷ fs) h) n in
      elim (Bool-cases (base e == b)) [ inl y ↦ ground arith | inr m ↦ ground arith ]

  -- `bufs[count++] = e`, for a base that is not found.
  pub count-append :
      (b : ℕ) (es : List A) (e : A)
      → count b (es ++ e ∷ []) ≡ (if base e == b then suc (count b es) else count b es)
  unfolding count
  count-append b [] e = refl
  count-append b (f ∷ es) e = let ih = count-append b es e in ground arith

  pub append-IsDistinct :
      (es : List A) (e : A)
      → IsDistinct es
      → find_buf base (base e) es ≡ none
      → IsDistinct (es ++ e ∷ [])
  append-IsDistinct es e h new = record {
    once = λ b.
        (let o = h.once b in
          let k = count-append b es e in
          let c = count-none es (base e) new in
          elim (Bool-cases (base e == b)) [
            | inl y ↦
                (let q : base e ≡ b = ground arith in
                  let c' = subst (λ z. count z es ≡ 0) q c in ground arith)
            | inr n ↦ ground arith
          ]);
  }

  pub find-append :
      (b : ℕ) (es : List A) (e : A)
      → find_buf base b (es ++ e ∷ []) ≡ elim (find_buf base b es) [
        | none ↦ (if base e == b then some e else none)
        | some f ↦ some f
      ]
  unfolding find_buf
  find-append b [] e = refl
  find-append b (f ∷ es) e = let ih = find-append b es e in ground arith

  pub length-remove : (b : ℕ) (es : List A) → length (remove_buf base b es) ≤ length es
  unfolding remove_buf fill_place
  length-remove b [] = ground arith
  length-remove b (e ∷ []) = ground arith
  length-remove b (e ∷ f ∷ fs) =
      let l = length-all_but_last f fs in
      let ih = length-remove b (f ∷ fs) in
      elim (Bool-cases (base e == b)) [ inl y ↦ ground arith | inr n ↦ ground arith ]

-- A sum over the entries of the table.
unfoldable pub total {ℓ} : {A : Type ℓ} → (A → ℕ) → List A → ℕ
total w [] = 0
total w (e ∷ es) = w e + total w es

pub total-append {ℓ} :
    {A : Type ℓ} (w : A → ℕ) (es : List A) (e : A) → total w (es ++ e ∷ []) ≡ total w es + w e
unfolding total
total-append w [] e = omega arith
total-append w (f ∷ es) e = omega (arith, total-append w es e)

pub total-fill {ℓ} :
    {A : Type ℓ} (w : A → ℕ) (e : A) (es : List A)
    → total w (last_of e es ∷ all_but_last e es) ≡ w e + total w es
unfolding total last_of all_but_last
total-fill w e [] = refl
total-fill w e (f ∷ fs) = omega (arith, total-fill w f fs)

-- A removal takes away what `find_buf` finds, and nothing else.
pub total-remove {ℓ} :
    {A : Type ℓ} (base w : A → ℕ) (b : ℕ) (es : List A) (e : A)
    → find_buf base b es ≡ some e
    → total w es ≡ w e + total w (remove_buf base b es)
unfolding total find_buf remove_buf fill_place
total-remove base w b [] e h = ground arith
total-remove base w b (f ∷ []) e h = elim (Bool-cases (base f == b)) [
  | inl y ↦ (let q : f ≡ e = ground arith in let q' = cong w q in ground arith)
  | inr n ↦ ground arith
]
total-remove base w b (f ∷ g ∷ fs) e h =
    let t = total-fill w g fs in
    elim (Bool-cases (base f == b)) [
      | inl y ↦ (let q : f ≡ e = ground arith in let q' = cong w q in ground arith)
      | inr n ↦ (let ih = total-remove base w b (g ∷ fs) e (ground arith) in ground arith)
    ]
