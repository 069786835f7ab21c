-- ===== src/Concurrent/Sound/Tests.antt =====
-- A cancellation that reads an order while its submission goes through.
use handly_web_app.Prelude.{refl, [], ◌∷◌}
use handly_web_app.Platform.{sample_platform}
use handly_web_app.Orders.Invariant.{AreSound}
use handly_web_app.System.{place_order, handle}
use handly_web_app.Concurrent.{cancelling, commit, reads, requests, writes, here, next}
use handly_web_app.Concurrent.Sound.{Steps-AreSound}
use handly_web_app.Samples.{priced_order, priced_db, priced_db-AreSound, may_cancel}

Steps-AreSound_example : AreSound (
    commit sample_platform
      (cancelling 1 100 priced_order)
      (handle sample_platform (place_order 1 100) priced_db))
Steps-AreSound_example =
    Steps-AreSound {p = sample_platform} priced_db
      {w = record {
        db =
            commit sample_platform (cancelling 1 100 priced_order)
              (handle sample_platform (place_order 1 100) priced_db);
        pending = [];
      }}
      priced_db-AreSound
      (next
        (next
          (next here (
            reads (record { db = priced_db; pending = [] }) (cancelling 1 100 priced_order) refl
              may_cancel))
          (requests (record { db = priced_db; pending = cancelling 1 100 priced_order ∷ [] })
            (place_order 1 100)))
        (writes (handle sample_platform (place_order 1 100) priced_db) [] []
          (cancelling 1 100 priced_order)))
