-- ===== src/Reviews/Ratings.antt =====
-- What holds of the reviews between two requests: apps/api/src/modules/reviews.
use handly_web_app.Prelude.{
  ℕ, ◌+◌, ◌*◌, ◌/◌, ◌≤◌, ◌≡◌, inl, inr, true, not, Option, none, some, [], ◌∷◌, Table, Rows,
  Rows-insert, count, count-insert_single, find_many, sum_of, is_some, leb, ◌==◌, nat_eq,
  Bool-cases, arith,
}
use handly_web_app.Contracts.{customer_complaint}
use handly_web_app.Store.{
  Review, Db, Ensures, returns, Ensures-bind, Ensures-guard, Ensures-require, Ensures-all,
  find_order,
}
use handly_web_app.Platform.{Platform}
use handly_web_app.Penalties.Frame.{record_event-Untouched, recompute_trust_tier-Untouched}
use handly_web_app.Penalties.{record_event}
use handly_web_app.Trust.Service.{recompute_trust_tier}
use handly_web_app.Reviews.{
  complaint_rating_threshold, is_review_of, is_for_order, average_hundredths, save_review,
  after_review, create_review,
}

abbrev pub IsRating : Review → Type 0
IsRating r = (1 ≤ r.rating) × (r.rating ≤ 5)

-- One review for each order, and every rating is one to five stars.
pub record AreReviews (db : Db) : Type 0 where
  pub single : (order : ℕ) → count (is_for_order order) db.reviews ≤ 1
  pub rated : Rows IsRating db.reviews

AreReviews-same : (db db' : Db) → db'.reviews ≡ db.reviews → AreReviews db → AreReviews db'
AreReviews-same db db' e s = record { single = λ o. rw e (s.single o); rated = rw e s.rated }

module _ (p : Platform) where
  after_review-AreReviews :
      (master order rating : ℕ) (db : Db)
      → AreReviews db
      → Ensures (λ _. AreReviews) AreReviews (after_review p master order rating db)
  unfolding after_review
  after_review-AreReviews master order rating db s =
      elim (Bool-cases (leb rating complaint_rating_threshold)) [
        | inl low ↦ rw low (
            Ensures-bind
              (Ensures-all (record_event p master customer_complaint (some order) db) (
                AreReviews-same db _
                  (record_event-Untouched p master customer_complaint (some order) db).reviews s))
              λ _ db₁ s₁. returns s₁)
        | inr fine ↦ rw fine (
            Ensures-bind
              (Ensures-all (recompute_trust_tier p master db)
                (AreReviews-same db _ (recompute_trust_tier-Untouched p master db).reviews s))
              λ _ db₁ s₁. returns s₁)
      ]

  -- Rating an order with one to five stars, whether it succeeds or fails, keeps it so that each order has
  -- one review at most and every rating is one to five stars.
  pub create_review-AreReviews :
      (customer id rating : ℕ) (db : Db)
      → 1 ≤ rating
      → rating ≤ 5
      → AreReviews db
      → Ensures (λ _. AreReviews) AreReviews (create_review p customer id rating db)
  unfolding create_review save_review find_order
  create_review-AreReviews customer id rating db low high s =
      Ensures-require _ _ db _ s λ order found. Ensures-guard _ _ db _ s λ own.
        Ensures-guard _ _ db _ s λ finished. Ensures-require _ _ db _ s λ master taken.
          Ensures-guard _ _ db _ s λ new_one.
            Ensures-bind
              (after_review-AreReviews master id rating _ (record {
                single =
                    count-insert_single db.next_id _ is_for_order id db.reviews (λ j h. only id j h)
                      (unreviewed _ new_one) s.single;
                rated = Rows-insert IsRating db.next_id _ db.reviews s.rated (low, high);
              }))
              λ _ db₁ s₁. returns s₁
    where
      unreviewed : (o : Option (ℕ × Review)) → not (is_some o) ≡ true → o ≡ none
      unreviewed o h = ground arith

      only : (i j : ℕ) → i == j ≡ true → j ≡ i
      only i j h = ground arith

-- The stars of a master's reviews add up to between one and five for each.
total_bounds :
    (master : ℕ) (reviews : Table Review)
    → Rows IsRating reviews
    → let number = count (is_review_of master) reviews in
      let total = sum_of (λ r. r.1.rating) (find_many (is_review_of master) reviews) in
      (number ≤ total) × (total ≤ 5 * number)
total_bounds master [] s = (omega arith, omega arith)
total_bounds master ((k, r) ∷ t) s =
    let rest = total_bounds master t s.1 in
    elim (Bool-cases (is_review_of master k r)) [
      | inl own ↦ rw own (omega (arith, rest.0, s.0.0), omega (arith, rest.1, s.0.1))
      | inr other ↦ rw other rest
    ]

rounded_bounds :
    (n t : ℕ)
    → 1 ≤ n
    → n ≤ t
    → t ≤ 5 * n
    → (100 ≤ (200 * t + n) / (2 * n)) × ((200 * t + n) / (2 * n) ≤ 500)
rounded_bounds n t h low high = (grind arith, grind arith)

-- Where every rating is one to five stars, the average of a master who has a review, with the rounding of
-- its column, lies between one and five stars.
pub average_hundredths_bounds :
    (master : ℕ) (reviews : Table Review)
    → Rows IsRating reviews
    → 1 ≤ count (is_review_of master) reviews
    → (100 ≤ average_hundredths master reviews) × (average_hundredths master reviews ≤ 500)
unfolding average_hundredths
average_hundredths_bounds master reviews s h =
    let (low, high) = total_bounds master reviews s in
    rounded_bounds (count (is_review_of master) reviews) _ h low high
