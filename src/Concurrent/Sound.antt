-- ===== src/Concurrent/Sound.antt =====
-- The steps of Concurrent and the invariant of the orders.
mod Tests
use handly_web_app.Prelude.{ℕ, ◌≡◌, true, List, [], ◌∷◌, ◌++◌, All}
use handly_web_app.Contracts.{OrderStatus, en_route, in_progress}
use handly_web_app.Store.{Db, Ensures-after}
use handly_web_app.Platform.{Platform}
use handly_web_app.Orders.State.{can_transition}
use handly_web_app.Orders.Invariant.{AreSound}
use handly_web_app.Orders.Invariant.Steps.{en_route-IsSoundOrder, in_progress-IsSoundOrder}
use handly_web_app.Orders.Invariant.Access.{transition_by_master-AreSound}
use handly_web_app.Orders.Invariant.Jobs.{
  allowed, cancel_commit-Keeps, confirm_commit-Keeps, cancel_by_master_commit-Keeps,
}
use handly_web_app.Dispatch.Service.Orders.{expire_order-Keeps}
use handly_web_app.System.Sound.{handle-AreSound}
use handly_web_app.Concurrent.{
  Pending, cancelling, heading_out, starting, cancelling_job, confirming, giving_up, snapshot,
  target, commit, World, Step, reads, writes, requests, Steps, here, next,
}

-- The transition that was checked: a fact about the snapshot, which no other request can undo.
abbrev IsAllowed : Pending → Type 0
IsAllowed q = can_transition (snapshot q).status (target q) ≡ true

pub record IsSafe (w : World) : Type 0 where
  pub sound : AreSound w.db
  pub checked : All IsAllowed w.pending

commit-AreSound :
    (p : Platform) (q : Pending) (db : Db) → IsAllowed q → AreSound db → AreSound (commit p q db)
unfolding commit
commit-AreSound p (cancelling user id o) db c s =
    Ensures-after (cancel_commit-Keeps user id o db c s)
commit-AreSound p (heading_out user id o) db c s = Ensures-after (
    transition_by_master-AreSound id o en_route user db s
      λ x e _ sound. en_route-IsSoundOrder user db.now x sound (allowed _ x e c))
commit-AreSound p (starting user id o) db c s = Ensures-after (
    transition_by_master-AreSound id o in_progress user db s
      λ x e _ sound. in_progress-IsSoundOrder user db.now x sound (allowed _ x e c))
commit-AreSound p (cancelling_job user id o) db c s =
    Ensures-after (cancel_by_master_commit-Keeps p user id o db c s)
commit-AreSound p (confirming user id master o) db c s =
    Ensures-after (confirm_commit-Keeps p user id master o db c s)
commit-AreSound p (giving_up id o) db c s = Ensures-after (expire_order-Keeps id o db c s)

take_out :
    (before later : List Pending) (q : Pending)
    → All IsAllowed (before ++ q ∷ later)
    → IsAllowed q × All IsAllowed (before ++ later)
take_out [] later q h = h
take_out (x ∷ before) later q h = let rest = take_out before later q h.1 in (rest.0, (h.0, rest.1))

Step-IsSafe : {p : Platform} {w v : World} → Step p w v → IsSafe w → IsSafe v
Step-IsSafe (reads w q found c) s = record { sound = s.sound; checked = (c, s.checked) }
Step-IsSafe {p} (writes db before later q) s =
    let split = take_out before later q s.checked in
    record { sound = commit-AreSound p q db split.0 s.sound; checked = split.1 }
Step-IsSafe {p} (requests w r) s = record {
  sound = handle-AreSound p r w.db s.sound;
  checked = s.checked;
}

-- However the reads and the guarded writes of cancelling by customer or master, heading out, starting, confirming and
-- giving up a search interleave with each other and with whole requests, every order that the
-- database holds stays sound, if all were sound while no action was pending.
pub Steps-AreSound :
    {p : Platform} (db : Db) {w : World}
    → AreSound db
    → Steps p (record { db = db; pending = [] }) w
    → AreSound w.db
Steps-AreSound db s steps = (reach steps).sound
  where
    reach : {p : Platform} {w : World} → Steps p (record { db = db; pending = [] }) w → IsSafe w
    reach here = record { sound = s; checked = tt }
    reach (next r step) = Step-IsSafe step (reach r)
