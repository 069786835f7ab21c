-- ===== src/Tests/Rules.antt =====
-- Transitions, quotes, scores and slots on concrete inputs.
use handly_web_app.Prelude.{◌≡◌, refl, true, some, lookup, arith}
use handly_web_app.Contracts.{
  priced, cancelled_by_customer, ServiceTier, medium, verified, utc_to_slot, slot_to_utc,
  VerificationStatus,
}
use handly_web_app.Contracts.Slots.{utc_to_slot-slot_to_utc}
use handly_web_app.Store.{after}
use handly_web_app.Doubles.{thousandths}
use handly_web_app.Orders.Access.{guarded_move}
use handly_web_app.Orders.Moves.{Move, guarded_move-Move}
use handly_web_app.Orders.Pricing.{BasePrice, IsSound, compute_quote, compute_quote-IsSound}
use handly_web_app.Orders.Invariant.{AreSound}
use handly_web_app.Orders.Quotes.{submit_order, submit_commit}
use handly_web_app.Orders.Quotes.Overtaken.{submit_commit_revives}
use handly_web_app.Trust.Score.{TrustFacts}
use handly_web_app.Dispatch.Scoring.{Candidate}
use handly_web_app.Samples.{
  priced_order, cancelled_order, priced_db, cancelled_db, cancelled_db-AreSound,
}

guarded_move-Move_example :
    Move 100 priced cancelled_by_customer 1
      (λ o. o)
      priced_db
      (guarded_move 100 priced cancelled_by_customer 1 (λ o. o) priced_db)
guarded_move-Move_example = guarded_move-Move 100 priced cancelled_by_customer 1 (λ o. o) priced_db

submit_commit_revives_example :
    let result = submit_commit 1 100 priced_order cancelled_db in
    (lookup 100 (after result).orders
      ≡ some (submit_order 1 priced ServiceTier.priority 1000 cancelled_order))
    × ¬ AreSound (after result)
submit_commit_revives_example =
    submit_commit_revives 1 100 priced_order cancelled_order cancelled_db cancelled_db-AreSound refl
      refl refl

abbrev cheap : BasePrice
cheap = record { lowest = 40000; highest = 90000 }

abbrev dear : BasePrice
dear = record { lowest = 50000; highest = 120000 }

compute_quote-IsSound_example :
    IsSound (compute_quote thousandths cheap medium ServiceTier.priority)
compute_quote-IsSound_example = compute_quote-IsSound thousandths cheap medium ServiceTier.priority

abbrev newcomer : TrustFacts
newcomer = record {
  jobs_done = 3;
  rating_hundredths = 450;
  verification = VerificationStatus.pending;
  cancelled = 1;
  closed = 3;
  accepted = 4;
  declined_or_expired = 2;
  active_penalty_points = 10;
}

abbrev regular : TrustFacts
regular = record newcomer { jobs_done = 40; verification = verified; active_penalty_points = 0 }

abbrev neighbour : Candidate
neighbour = record {
  master_id = 2;
  distance_m = 800;
  rating_hundredths = 450;
  jobs_done = 40;
  is_premium = true;
}

utc_to_slot-slot_to_utc_example :
    utc_to_slot (slot_to_utc (record { date = 20000; minute = 540 }))
    ≡ record { date = 20000; minute = 540 }
utc_to_slot-slot_to_utc_example =
    utc_to_slot-slot_to_utc (record { date = 20000; minute = 540 }) (omega arith) (omega arith)
