-- ===== src/Notifications/Inbox.antt =====
-- How a user reads notifications: `list`, `unreadCount` and `markRead` of
-- apps/api/src/modules/notifications/notifications.service.ts.
use handly_web_app.Prelude.{
  ℕ, Bool, not, ◌&&◌, ◌==◌, nat_eq, if◌then◌else◌, Option, some, lookup, update, find_many, count,
  is_some,
}
use handly_web_app.Store.{
  Notification, not_found, forbidden, M, ◌>>=◌, ◌>>◌, gets, modify, pure, guard, require,
}
use handly_web_app.Paging.{Page, newest_first, page}

abbrev pub is_to : ℕ → ℕ → Notification → Bool
is_to user _ n = n.user_id == user

unfoldable pub list_notifications : ℕ → Option ℕ → M (Page Notification)
list_notifications user cursor =
    gets λ db. page 20 (newest_first (find_many (is_to user) db.notifications)) cursor

unfoldable pub unread_count : ℕ → M ℕ
unread_count user =
    gets λ db. count (λ k n. is_to user k n && not (is_some n.read_at)) db.notifications

unfoldable pub set_read : ℕ → Notification → M Notification
set_read id n db =
    if is_some n.read_at
    then pure n db
    else (do
      now ← gets (λ db. db.now)
      modify (λ db. record db {
        notifications = update id (λ n. record n { read_at = some now }) db.notifications;
      })
      pure (record n { read_at = some now }))
        db

unfoldable pub mark_read : ℕ → ℕ → M Notification
mark_read user id = do
  found ← gets (λ db. lookup id db.notifications)
  existing ← require found not_found
  guard (existing.user_id == user) forbidden
  set_read id existing
