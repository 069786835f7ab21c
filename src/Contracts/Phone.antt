-- ===== src/Contracts/Phone.antt =====
-- packages/contracts/src/phone.ts: phone numbers as lists of character codes.
pub mod Spellings
use handly_web_app.Prelude.{
  ℕ, ◌≡◌, Bool, true, false, ◌&&◌, ◌||◌, ◌==◌, nat_eq, nat_beq, leb, if◌then◌else◌, Option, none,
  some, List, [], ◌∷◌, ◌++◌, length, drop, keep_if, is_prefix,
}

-- `\d`
abbrev pub is_digit : ℕ → Bool
is_digit c = leb 48 c && leb c 57

abbrev pub are_digits : List ℕ → Bool
are_digits [] = true
are_digits (c ∷ cs) = is_digit c && are_digits cs

-- `^\d{9}$`
abbrev pub is_nine_digits : List ℕ → Bool
is_nine_digits s = nat_beq (length s) 9 && are_digits s

abbrev pub plus : ℕ
plus = 43

-- "998"
abbrev pub country : List ℕ
country = 57 ∷ 57 ∷ 56 ∷ []

-- "00"
abbrev pub exit_code : List ℕ
exit_code = 48 ∷ 48 ∷ []

unfoldable pub is_uz_phone : List ℕ → Bool
is_uz_phone s = is_prefix (plus ∷ country) s && is_nine_digits (drop 4 s)

abbrev pub is_kept : ℕ → Bool
is_kept c = is_digit c || c == plus

unfoldable pub with_plus_for_exit : List ℕ → List ℕ
with_plus_for_exit s = if is_prefix exit_code s then plus ∷ drop 2 s else s

unfoldable pub with_plus_for_country : List ℕ → List ℕ
with_plus_for_country s = if is_prefix country s then plus ∷ s else s

unfoldable pub with_country : List ℕ → List ℕ
with_country s = if is_nine_digits s then plus ∷ country ++ s else s

unfoldable pub normalize_uz_phone : List ℕ → Option (List ℕ)
normalize_uz_phone input =
    let normalized =
      with_country (with_plus_for_country (with_plus_for_exit (keep_if is_kept input))) in
    if is_uz_phone normalized then some normalized else none
