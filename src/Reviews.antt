-- ===== src/Reviews.antt =====
-- apps/api/src/modules/reviews/reviews.service.ts.
pub mod Ratings
use handly_web_app.Prelude.{
  ℕ, ◌+◌, ◌*◌, ◌/◌, Bool, not, ◌==◌, nat_eq, leb, Option, none, some, Table, insert, update,
  find_first, find_many, count, sum_of, is_some, if◌then◌else◌,
}
use handly_web_app.Contracts.{closed, status_eq, customer_complaint}
use handly_web_app.Store.{
  Order, Review, MasterProfile, Db, Error, forbidden, conflict, M, ◌>>=◌, ◌>>◌, gets, modify, pure,
  guard, require, transaction, fresh_id, find_order,
}
use handly_web_app.Platform.{Platform}
use handly_web_app.Trust.Service.{recompute_trust_tier}
use handly_web_app.Penalties.{record_event}

abbrev pub complaint_rating_threshold : ℕ
complaint_rating_threshold = 2

abbrev pub is_review_of : ℕ → ℕ → Review → Bool
is_review_of master _ r = r.master_id == master

abbrev pub is_for_order : ℕ → ℕ → Review → Bool
is_for_order order _ r = r.order_id == order

-- `_avg` in hundredths, rounded as the column `Decimal(3, 2)` does.
unfoldable pub average_hundredths : ℕ → Table Review → ℕ
average_hundredths master reviews =
    let total : ℕ = sum_of (λ r. r.1.rating) (find_many (is_review_of master) reviews) in
    let number : ℕ = count (is_review_of master) reviews in (200 * total + number) / (2 * number)

-- The transaction: the review, and the average that it makes.
unfoldable pub save_review : ℕ → ℕ → ℕ → ℕ → M Review
save_review customer order master rating = transaction (do
  id ← fresh_id
  let row : Review = record {
    order_id = order;
    customer_id = customer;
    master_id = master;
    rating = rating;
  }
  modify (λ db. record db { reviews = insert id row db.reviews })
  modify (λ db. record db {
    masters =
        update master (λ m. record m { rating_hundredths = average_hundredths master db.reviews })
          db.masters;
  })
  pure row)

-- A low rating counts as a complaint, which recomputes the tier as well.
unfoldable pub after_review : Platform → ℕ → ℕ → ℕ → M (Unit {0})
after_review p master order rating db =
    if leb rating complaint_rating_threshold
    then (do penalty ← record_event p master customer_complaint (some order); pure tt) db
    else (do tier ← recompute_trust_tier p master; pure tt) db

unfoldable pub create_review : Platform → ℕ → ℕ → ℕ → M Review
create_review p customer id rating = do
  order ← find_order id
  guard (order.customer_id == customer) forbidden
  guard (order.status == closed) conflict
  master ← require order.master_id conflict
  existing ← gets (λ db. find_first (is_for_order id) db.reviews)
  guard (not (is_some existing)) conflict
  review ← save_review customer id master rating
  after_review p master id rating
  pure review
