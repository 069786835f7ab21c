-- ===== src/Paging/Gaps.antt =====
-- What following the cursors shows: the lists in pages of apps/api/src/modules.
use handly_web_app.Prelude.{
  ℕ, zero, suc, ◌≡◌, refl, ap, inl, inr, none, some, [], ◌∷◌, ◌++◌, Table, take, drop, length,
  lookup, nat_beq, nat_beq_iff, ◌≢◌, subst, Bool-cases, HasDistinctKeys, arith,
}
use handly_web_app.Paging.{after_row, page}

module _ {V : Type 0} where
  take-append : (xs ys : Table V) → take (length xs) (xs ++ ys) ≡ xs
  take-append [] ys = refl
  take-append (x ∷ xs) ys = ap (◌∷◌ x) (take-append xs ys)

  take-suc-append :
      (xs : Table V) (y : ℕ × V) (ys : Table V)
      → take (suc (length xs)) (xs ++ y ∷ ys) ≡ xs ++ y ∷ []
  take-suc-append [] y ys = refl
  take-suc-append (x ∷ xs) y ys = ap (◌∷◌ x) (take-suc-append xs y ys)

  drop-append : (xs ys : Table V) → drop (length xs) (xs ++ ys) ≡ ys
  drop-append [] ys = refl
  drop-append (x ∷ xs) ys = drop-append xs ys

  present : (k : ℕ) (w : V) (xs ys : Table V) → lookup k (xs ++ (k, w) ∷ ys) ≢ none
  present k w [] ys h = ground (arith, h)
  present k w ((j, v) ∷ xs) ys h = ground (arith, h, present k w xs ys)

  after_row-append :
      (k : ℕ) (w : V) (xs ys : Table V)
      → HasDistinctKeys (xs ++ (k, w) ∷ ys)
      → after_row k (xs ++ (k, w) ∷ ys) ≡ ys
  unfolding after_row
  after_row-append k w [] ys d = ground arith
  after_row-append k w ((j, v) ∷ xs) ys d = elim (Bool-cases (nat_beq j k)) [
    | inr miss ↦ rw miss (after_row-append k w xs ys d.1)
    | inl hit ↦
        let same : j ≡ k = (nat_beq_iff j k).0 hit in
        absurd (present k w xs ys (subst (λ i. lookup i (xs ++ (k, w) ∷ ys) ≡ none) same d.0))
  ]

  take-take : (n : ℕ) (xs : Table V) → take n (take (suc n) xs) ≡ take n xs
  take-take zero xs = refl
  take-take (suc n) [] = refl
  take-take (suc n) (x ∷ xs) = ap (◌∷◌ x) (take-take n xs)

  -- The first page shows the rows before the cursor's, the page that its cursor asks for those after it:
  -- the row of the cursor itself is on neither, where the ids are distinct.
  pub page_skips :
      (first rest : Table V) (k : ℕ) (v : V)
      → HasDistinctKeys (first ++ (k, v) ∷ rest)
      → let size = length first in
        let shown = page size (first ++ (k, v) ∷ rest) none in
        (shown.items ≡ first)
        × (shown.next_cursor ≡ some k)
        × ((page size (first ++ (k, v) ∷ rest) shown.next_cursor).items ≡ take size rest)
  unfolding page
  page_skips first rest k v d =
      let found = take-suc-append first (k, v) rest in
      let shown = take-append first ((k, v) ∷ []) in
      let cursor = drop-append first ((k, v) ∷ []) in
      let beyond = after_row-append k v first rest d in
      (
        rw found shown,
        rw (found, cursor) refl,
        rw (found, cursor, beyond) (take-take (length first) rest),
      )
