-- ===== src/Penalties/Frame.antt =====
-- The tables that apps/api/src/modules/notifications, trust and penalties leave alone.
use handly_web_app.Prelude.{ℕ, inl, inr, Option, lookup, Option-cases, arith}
use handly_web_app.Contracts.{PenaltyEventType}
use handly_web_app.Store.{NotificationType, Message, Db, after, require, Untouched}
use handly_web_app.Platform.{Platform}
use handly_web_app.Notifications.{emit_to_user, create_record, deliver, notify}
use handly_web_app.Trust.Service.{recompute_trust_tier}
use handly_web_app.Penalties.{record_event}

pub emit_to_user-Untouched :
    (user : ℕ) (m : Message) (db : Db) → Untouched db (after (emit_to_user user m db))
unfolding emit_to_user
emit_to_user-Untouched user m db = ground arith

pub notify-Untouched :
    (user : ℕ) (kind : NotificationType) (subject : ℕ) (db : Db)
    → Untouched db (after (notify user kind subject db))
unfolding notify create_record deliver emit_to_user
notify-Untouched user kind subject db = ground arith

module _ (p : Platform) where
  pub recompute_trust_tier-Untouched :
      (master : ℕ) (db : Db) → Untouched db (after (recompute_trust_tier p master db))
  unfolding recompute_trust_tier require
  recompute_trust_tier-Untouched master db = elim (Option-cases (lookup master db.masters)) [
    | inl e ↦ rw e (ground arith)
    | inr (m, e) ↦ rw e (ground arith)
  ]

  pub record_event-Untouched :
      (master : ℕ) (event : PenaltyEventType) (order : Option ℕ) (db : Db)
      → Untouched db (after (record_event p master event order db))
  unfolding record_event recompute_trust_tier require notify create_record deliver emit_to_user
  record_event-Untouched master event order db = elim (Option-cases (lookup master db.masters)) [
    | inl e ↦ rw e (ground arith)
    | inr (m, e) ↦ rw e (ground arith)
  ]
