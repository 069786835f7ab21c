-- ===== src/Platform.antt =====
-- What the services are given: the configuration of apps/api/src/infra/config/env.ts, the numbers
-- of JavaScript, PostGIS and the random generator. All of it is a parameter of the model.
use handly_web_app.Prelude.{ℕ, Bool, leb}
use handly_web_app.Doubles.{Doubles, thousandths}

pub record Platform : Type 1 where
  pub doubles : Doubles
  -- `ST_Distance(p, q)::int` and `ST_DWithin(p, q, metres)` at two latitudes and longitudes.
  pub distance_m : ℕ → ℕ → ℕ → ℕ → ℕ
  pub within_m : ℕ → ℕ → ℕ → ℕ → doubles.F → Bool
  -- What `Math.random()` returns when the next generated id is n.
  pub random : ℕ → doubles.F
  pub radius_expansion_factor : doubles.F
  pub tax_withholding_rate : doubles.F
  pub dispatch_top_n : ℕ
  pub offer_ttl_scheduled_seconds : ℕ
  pub offer_ttl_priority_seconds : ℕ
  pub offer_ttl_emergency_seconds : ℕ
  pub order_max_media : ℕ
  pub upload_max_photo_bytes : ℕ
  pub upload_max_video_bytes : ℕ

-- The defaults of env.ts, in a world where every place is one kilometre from every other.
abbrev pub sample_platform : Platform
sample_platform = record {
  doubles = thousandths;
  distance_m = λ a b c d. 1000;
  within_m = λ a b c d r. leb 1000000 r;
  random = λ n. 500;
  radius_expansion_factor = 2000;
  tax_withholding_rate = 10;
  dispatch_top_n = 5;
  offer_ttl_scheduled_seconds = 600;
  offer_ttl_priority_seconds = 120;
  offer_ttl_emergency_seconds = 60;
  order_max_media = 5;
  upload_max_photo_bytes = 10485760;
  upload_max_video_bytes = 52428800;
}
