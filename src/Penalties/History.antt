-- ===== src/Penalties/History.antt =====
-- `getHistory` of apps/api/src/modules/penalties/penalties.service.ts.
use handly_web_app.Prelude.{ℕ, ◌==◌, nat_eq, Table, find_many}
use handly_web_app.Store.{Penalty, M, gets}
use handly_web_app.Trust.Service.{active_penalty_points}
use handly_web_app.Paging.{newest_first}

pub record PenaltyHistory : Type 0 where
  pub items : Table Penalty
  pub active_points : ℕ

unfoldable pub get_history : ℕ → M PenaltyHistory
get_history master = gets λ db. record {
  items = newest_first (find_many (λ _ p. p.master_id == master) db.penalties);
  active_points = active_penalty_points master db;
}
