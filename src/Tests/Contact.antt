-- ===== src/Tests/Contact.antt =====
-- Phone numbers as users write them.
use handly_web_app.Prelude.{ℕ, ◌≡◌, ◌↔◌, refl, true, none, some, List, [], ◌∷◌, ◌++◌, keep_if}
use handly_web_app.Contracts.Phone.{
  is_kept, is_nine_digits, plus, country, is_uz_phone, with_plus_for_exit, with_plus_for_country,
  with_country, normalize_uz_phone,
}
use handly_web_app.Contracts.Phone.Spellings.{Spelling, normalize_uz_phone_iff}

-- "90 123-45-67"
abbrev local_input : List ℕ
local_input = 57 ∷ 48 ∷ 32 ∷ 49 ∷ 50 ∷ 51 ∷ 45 ∷ 52 ∷ 53 ∷ 45 ∷ 54 ∷ 55 ∷ []

-- "901234567"
abbrev local_digits : List ℕ
local_digits = 57 ∷ 48 ∷ 49 ∷ 50 ∷ 51 ∷ 52 ∷ 53 ∷ 54 ∷ 55 ∷ []

normalize_local : normalize_uz_phone local_input ≡ some (plus ∷ country ++ local_digits)
unfolding normalize_uz_phone is_uz_phone with_plus_for_exit with_plus_for_country with_country
normalize_local = refl

-- "998123456", a number of the operator 99.
normalize_operator : normalize_uz_phone (country ++ 49 ∷ 50 ∷ 51 ∷ 52 ∷ 53 ∷ 54 ∷ []) ≡ none
unfolding normalize_uz_phone is_uz_phone with_plus_for_exit with_plus_for_country with_country
normalize_operator = refl

-- "8 90 123 45 67"
normalize_leading_eight : normalize_uz_phone (56 ∷ 32 ∷ local_input) ≡ none
unfolding normalize_uz_phone is_uz_phone with_plus_for_exit with_plus_for_country with_country
normalize_leading_eight = refl

normalize_uz_phone_iff_example :
    (normalize_uz_phone local_input ≡ some (plus ∷ country ++ local_digits)) ↔ (
      (d : List ℕ) × (plus ∷ country ++ local_digits ≡ plus ∷ country ++ d)
      × (is_nine_digits d ≡ true)
      × Spelling d (keep_if is_kept local_input))
normalize_uz_phone_iff_example = normalize_uz_phone_iff local_input (plus ∷ country ++ local_digits)
