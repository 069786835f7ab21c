-- ===== src/Notifications.antt =====
-- apps/api/src/modules/notifications/notifications.service.ts and the emits of
-- apps/api/src/modules/realtime/realtime.gateway.ts. The push to a device is not modelled.
pub mod Inbox
use handly_web_app.Prelude.{ℕ, none, [], ◌∷◌, ◌++◌, insert}
use handly_web_app.Store.{
  NotificationType, Notification, Message, notification_new, M, ◌>>=◌, ◌>>◌, modify, pure, fresh_id,
}

unfoldable pub emit_to_user : ℕ → Message → M (Unit {0})
emit_to_user user message =
    modify
      λ db. record db { emitted = db.emitted ++ record { user_id = user; message = message } ∷ [] }

-- `createRecord`: the row alone, for a caller in a transaction.
unfoldable pub create_record : ℕ → NotificationType → ℕ → M Notification
create_record user kind subject = do
  id ← fresh_id
  let row : Notification = record { user_id = user; kind = kind; subject = subject; read_at = none }
  modify (λ db. record db { notifications = insert id row db.notifications })
  pure row

-- `deliver`: once the row is committed.
unfoldable pub deliver : Notification → M (Unit {0})
deliver n = emit_to_user n.user_id (notification_new n.kind)

unfoldable pub notify : ℕ → NotificationType → ℕ → M (Unit {0})
notify user kind subject = do n ← create_record user kind subject; deliver n
