-- ===== src/Penalties.antt =====
-- apps/api/src/modules/penalties: penalties.service.ts and penalty-rules.ts.
pub mod Frame
pub mod History
use handly_web_app.Prelude.{ℕ, ◌+◌, ◌≡◌, refl, Option, none, some, insert}
use handly_web_app.Contracts.{
  PenaltyEventType, cancellation, no_show, late_response, poor_quality, customer_complaint,
  PenaltySeverity, minor, moderate, severe,
}
use handly_web_app.Store.{
  Penalty, NotificationType, penalty_issued, Db, M, ◌>>=◌, ◌>>◌, gets, modify, pure, fresh_id,
}
use handly_web_app.Platform.{Platform}
use handly_web_app.Notifications.{notify}
use handly_web_app.Trust.Service.{recompute_trust_tier}

pub record PenaltyRule : Type 0 where
  pub severity : PenaltySeverity
  pub points : ℕ

unfoldable pub penalty_rules : PenaltyEventType → PenaltyRule
penalty_rules cancellation = record { severity = moderate; points = 10 }
penalty_rules no_show = record { severity = severe; points = 20 }
penalty_rules late_response = record { severity = minor; points = 3 }
penalty_rules poor_quality = record { severity = moderate; points = 8 }
penalty_rules customer_complaint = record { severity = minor; points = 5 }

module _ (p : Platform) where
  unfoldable pub record_event : ℕ → PenaltyEventType → Option ℕ → M Penalty
  record_event master event order = do
    now ← gets (λ db. db.now)
    id ← fresh_id
    let rule = penalty_rules event
    let row : Penalty = record {
      master_id = master;
      event_type = event;
      severity = rule.severity;
      points = rule.points;
      order_id = order;
      created_at = now;
    }
    modify (λ db. record db { penalties = insert id row db.penalties })
    tier ← recompute_trust_tier p master
    notify master penalty_issued id
    pure row
