-- ===== src/Ai/Choice.antt =====
-- Which category mock-ai.provider.ts in apps/api/src/modules/ai suggests.
use handly_web_app.Prelude.{
  ℕ, ◌≤◌, ◌<◌, ◌≡◌, refl, ap, inl, inr, Bool, true, ltb, Option, none, some, List, [], ◌∷◌, ◌++◌,
  All, String, Bool-cases, arith,
}
use handly_web_app.Contracts.{tier_eq, emergency, critical}
use handly_web_app.Ai.{
  DiagnoseInput, Advice, Hints, category_keywords, hits, best_of, match_of, id_of,
  classify_complexity, mock_diagnose, advise,
}

-- The outcome of the loop: the best so far stays, or the first of the entries with the most hits leads.
pub data Best (text : String) (hs : List Hints) (best : Option String × ℕ)
    : Option String × ℕ → Type 0 where
  stays : All (λ h. hits text h.words ≤ best.1) hs → Best text hs best best
  leads :
      (before : List Hints) (h : Hints) (after : List Hints)
      → hs ≡ before ++ h ∷ after
      → best.1 < hits text h.words
      → All (λ g. hits text g.words < hits text h.words) before
      → All (λ g. hits text g.words ≤ hits text h.words) after
      → Best text hs best (some h.slug, hits text h.words)

after_higher :
    (text : String) (h : Hints) (hs : List Hints) (best r : Option String × ℕ)
    → best.1 < hits text h.words
    → Best text hs (some h.slug, hits text h.words) r
    → Best text (h ∷ hs) best r
after_higher text h hs best r high (stays low) = leads [] h hs refl high tt low
after_higher text h hs best r high (leads before g after e more less rest) =
    leads (h ∷ before) g after (ap (λ t. h ∷ t) e) (omega (arith, high, more)) (more, less) rest

after_lower :
    (text : String) (h : Hints) (hs : List Hints) (best r : Option String × ℕ)
    → hits text h.words ≤ best.1
    → Best text hs best r
    → Best text (h ∷ hs) best r
after_lower text h hs best r low (stays rest) = stays (low, rest)
after_lower text h hs best r low (leads before g after e more less rest) =
    leads (h ∷ before) g after (ap (λ t. h ∷ t) e) more (omega (arith, low, more), less) rest

best_of-Best :
    (text : String) (hs : List Hints) (best : Option String × ℕ)
    → Best text hs best (best_of text hs best)
unfolding best_of
best_of-Best text [] best = stays tt
best_of-Best text (h ∷ hs) best = elim (Bool-cases (ltb best.1 (hits text h.words))) [
  | inl e ↦ rw e (
      after_higher text h hs best _ (ground (arith, e))
        (best_of-Best text hs (some h.slug, hits text h.words)))
  | inr e ↦ rw e (after_lower text h hs best _ (ground (arith, e)) (best_of-Best text hs best))
]

module _ (utf16_length : String → ℕ) (lower_case : String → String) where
  -- What the deterministic diagnosis says of an input.
  pub record IsDiagnosis (input : DiagnoseInput) (a : Advice) : Type 0 where
    pub slug : Option String
    pub count : ℕ
    pub best : Best (lower_case input.description) category_keywords (none, 0) (slug, count)
    pub category : a.category_id ≡ id_of (match_of input.categories slug)
    pub confident : (50 ≤ a.confidence) × (a.confidence ≤ 85)
    pub urgent : input.service_tier ≡ emergency → a.complexity ≡ critical

  -- Where Claude is not configured or the call fails, the diagnosis suggests the category of the first
  -- entry of the table with the most hits, if there is a hit and the category is offered, with a
  -- confidence from 50 to 85 hundredths, and calls every emergency critical.
  pub advise-IsDiagnosis :
      (claude_enabled : Bool) (ask_claude : DiagnoseInput → Option Advice) (input : DiagnoseInput)
      → (claude_enabled ≡ true → ask_claude input ≡ none)
      → IsDiagnosis input (advise utf16_length lower_case claude_enabled ask_claude input)
  unfolding advise mock_diagnose classify_complexity
  advise-IsDiagnosis claude_enabled ask_claude input fails = elim (Bool-cases claude_enabled) [
    | inl e ↦ rw (e, fails e) mocked
    | inr e ↦ rw e mocked
  ]
    where
      mocked : IsDiagnosis input (mock_diagnose utf16_length lower_case input)
      mocked =
          let text = lower_case input.description in
          let r = best_of text category_keywords (none, 0) in
          record {
            slug = r.0;
            count = r.1;
            best = best_of-Best text category_keywords (none, 0);
            category = refl;
            confident = (ground arith, ground arith);
            urgent = λ e. rw e refl;
          }
