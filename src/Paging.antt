-- ===== src/Paging.antt =====
-- The lists that the API serves in pages, newest first: `list` of notifications.service.ts and
-- audit.service.ts, and of the administrators' services, under apps/api/src/modules. The database is
-- asked for one row more than a page has.
pub mod Gaps
use handly_web_app.Prelude.{
  ℕ, suc, ◌+◌, Bool, true, false, Option, none, some, List, [], ◌∷◌, ◌++◌, Table, find_many, take,
  drop, nat_beq, if◌then◌else◌,
}

pub record Page (V : Type 0) : Type 0 where
  pub items : Table V
  pub next_cursor : Option ℕ

module _ {V : Type 0} where
  -- `orderBy: { createdAt: 'desc' }`.
  unfoldable pub newest_first : Table V → Table V
  newest_first [] = []
  newest_first (r ∷ t) = newest_first t ++ r ∷ []

  unfoldable pub after_row : ℕ → Table V → Table V
  after_row k [] = []
  after_row k ((j, v) ∷ t) = if nat_beq j k then t else after_row k t

  -- `cursor: { id: cursor }, skip: 1`: the rows after the cursor's.
  abbrev pub after_cursor : Option ℕ → Table V → Table V
  after_cursor none t = t
  after_cursor (some k) t = after_row k t

  abbrev pub cursor_of : Table V → Option ℕ
  cursor_of [] = none
  cursor_of ((k, v) ∷ t) = some k

  unfoldable pub page : ℕ → Table V → Option ℕ → Page V
  page size rows cursor =
      let found = take (suc size) (after_cursor cursor rows) in
      record { items = take size found; next_cursor = cursor_of (drop size found) }
