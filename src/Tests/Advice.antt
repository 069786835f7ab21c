-- ===== src/Tests/Advice.antt =====
-- The deterministic diagnosis on a concrete input.
use handly_web_app.Prelude.{ℕ, ◌≡◌, refl, true, Option, none, some, [], ◌∷◌, String}
use handly_web_app.Contracts.{priority}
use handly_web_app.Ai.{
  DiagnoseInput, Advice, contains, hits, best_of, find_category, mock_diagnose, advise,
}
use handly_web_app.Ai.Choice.{IsDiagnosis, advise-IsDiagnosis}

-- Two words for a plumber and two for an electrician.
abbrev flooded_socket : DiagnoseInput
flooded_socket = record {
  description = "rozetka va kran: suv, tok";
  service_tier = priority;
  categories = record { id = 10; slug = "electrician" } ∷ record { id = 11; slug = "plumber" } ∷ [];
}

abbrev any_length : String → ℕ
any_length text = 25

abbrev same_case : String → String
same_case text = text

first_of_tied : (mock_diagnose any_length same_case flooded_socket).category_id ≡ some 11
unfolding mock_diagnose best_of hits contains find_category
first_of_tied = refl

abbrev no_answer : DiagnoseInput → Option Advice
no_answer input = none

advise-IsDiagnosis_example :
    IsDiagnosis any_length same_case flooded_socket
      (advise any_length same_case true no_answer flooded_socket)
advise-IsDiagnosis_example =
    advise-IsDiagnosis any_length same_case true no_answer flooded_socket (λ e. refl)
