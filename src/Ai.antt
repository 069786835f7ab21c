-- ===== src/Ai.antt =====
-- apps/api/src/modules/ai: ai.service.ts and the deterministic diagnosis of mock-ai.provider.ts. The
-- summary's text is left out; the confidence is in hundredths.
pub mod Choice
use text.Mathlib.Text.{find?}
use handly_web_app.Prelude.{
  ℕ, suc, ◌+◌, ◌*◌, min, Bool, true, false, ◌||◌, ◌&&◌, ◌==◌, text_eq, ltb, if◌then◌else◌, Option,
  none, some, is_some, List, [], ◌∷◌, any_of, String,
}
use handly_web_app.Contracts.{
  ServiceTier, tier_eq, emergency, Complexity, simple, medium, complex, critical,
}
use handly_web_app.Store.{DiagnosisSource, claude, mock}

pub record DiagnoseCategory : Type 0 where
  pub id : ℕ
  pub slug : String

pub record DiagnoseInput : Type 0 where
  pub description : String
  pub service_tier : ServiceTier
  pub categories : List DiagnoseCategory

pub record Advice : Type 0 where
  pub category_id : Option ℕ
  pub complexity : Complexity
  pub confidence : ℕ
  pub source : DiagnosisSource

-- A category's slug and the words that hint at it.
pub record Hints : Type 0 where
  pub slug : String
  pub words : List String

abbrev pub category_keywords : List Hints
category_keywords =
    record {
      slug = "plumber";
      words =
          "kran" ∷ "suv" ∷ "quvur" ∷ "oqmoqda" ∷ "oqyapti" ∷ "santex" ∷ "unitaz" ∷ "rakovina"
          ∷ "вода" ∷ "кран" ∷ "труб" ∷ "течет" ∷ "сантех" ∷ [];
    }
    ∷ record {
      slug = "electrician";
      words =
          "rozetka" ∷ "tok" ∷ "elektr" ∷ "chiroq" ∷ "svet" ∷ "vyklyuchatel" ∷ "sim" ∷ "провод"
          ∷ "розетк" ∷ "свет" ∷ "электр" ∷ "выключател" ∷ [];
    }
    ∷ record {
      slug = "ac-technician";
      words =
          "konditsioner" ∷ "kondey" ∷ "sovutish" ∷ "kondits" ∷ "кондиционер" ∷ "кондей" ∷ "охлажд"
          ∷ [];
    }
    ∷ record {
      slug = "cleaner";
      words = "tozalash" ∷ "toza" ∷ "yuvish" ∷ "uborka" ∷ "уборк" ∷ "чист" ∷ "мыть" ∷ [];
    }
    ∷ record {
      slug = "renovation";
      words =
          "ta'mir" ∷ "tamir" ∷ "devor" ∷ "shtukatur" ∷ "oboyi" ∷ "gips" ∷ "pol " ∷ "ремонт" ∷ "стен"
          ∷ "штукатур" ∷ "обои" ∷ [];
    }
    ∷ record {
      slug = "handyman";
      words =
          "osish" ∷ "o'rnatish" ∷ "ornatish" ∷ "yigish" ∷ "mebel'" ∷ "mebel" ∷ "polka" ∷ "karniz"
          ∷ "повесить" ∷ "собрать" ∷ "мебель" ∷ "установ" ∷ [];
    }
    ∷ []

abbrev pub critical_keywords : List String
critical_keywords =
    "portla" ∷ "gaz" ∷ "suv bosdi" ∷ "toshdi" ∷ "tok urdi" ∷ "yong" ∷ "kuydi" ∷ "затопил" ∷ "потоп"
    ∷ "взрыв" ∷ "горит" ∷ "пожар" ∷ "бьет током" ∷ []

abbrev pub complex_keywords : List String
complex_keywords =
    "almashtirish" ∷ "montaj" ∷ "to'liq" ∷ "toliq" ∷ "butun" ∷ "hammasi" ∷ "замен" ∷ "монтаж"
    ∷ "полность" ∷ "весь" ∷ []

-- `text.includes(word)`
unfoldable pub contains : String → String → Bool
contains text word = is_some (find? text word)

unfoldable pub hits : String → List String → ℕ
hits text [] = 0
hits text (w ∷ ws) = if contains text w then suc (hits text ws) else hits text ws

-- The loop over the table, from the best slug so far and its hits.
unfoldable pub best_of : String → List Hints → Option String × ℕ → Option String × ℕ
best_of text [] best = best
best_of text (h ∷ hs) best =
    best_of text hs
      (if ltb best.1 (hits text h.words) then (some h.slug, hits text h.words) else best)

unfoldable pub find_category : List DiagnoseCategory → String → Option DiagnoseCategory
find_category [] slug = none
find_category (c ∷ cs) slug = if c.slug == slug then some c else find_category cs slug

abbrev pub match_of : List DiagnoseCategory → Option String → Option DiagnoseCategory
match_of categories none = none
match_of categories (some slug) = find_category categories slug

abbrev pub id_of : Option DiagnoseCategory → Option ℕ
id_of none = none
id_of (some c) = some c.id

-- The length of a text in UTF-16 units, and `toLowerCase`, are those of the language.
module _ (utf16_length : String → ℕ) (lower_case : String → String) where
  unfoldable pub classify_complexity : String → DiagnoseInput → Complexity
  classify_complexity text input =
      if input.service_tier == emergency || any_of (contains text) critical_keywords
      then critical
      else if any_of (contains text) complex_keywords || ltb 400 (utf16_length text)
      then complex
      else if ltb (utf16_length text) 60
      then simple
      else medium

  unfoldable pub mock_diagnose : DiagnoseInput → Advice
  mock_diagnose input =
      let text = lower_case input.description in
      let best = best_of text category_keywords (none, 0) in
      record {
        category_id = id_of (match_of input.categories best.0);
        complexity = classify_complexity text input;
        confidence = min 85 (50 + best.1 * 10);
        source = mock;
      }

  -- `claude_enabled` is the configuration's, and the answer of Claude none when the call fails.
  abbrev pub or_mock : DiagnoseInput → Option Advice → Advice
  or_mock input none = mock_diagnose input
  or_mock input (some advice) = advice

  unfoldable pub advise : Bool → (DiagnoseInput → Option Advice) → DiagnoseInput → Advice
  advise claude_enabled ask_claude input =
      if claude_enabled then or_mock input (ask_claude input) else mock_diagnose input
