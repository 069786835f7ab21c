-- ===== src/Contracts/Phone/Spellings.antt =====
-- Which spellings of a number packages/contracts/src/phone.ts takes.
use handly_web_app.Prelude.{
  ℕ, suc, ◌≡◌, refl, sym, ap, subst, ◌∙◌, ◌↔◌, inl, inr, true, false, nat_eq, nat_beq, some, List,
  ◌∷◌, ◌++◌, length, drop, keep_if, is_prefix, is_prefix-append, Bool-cases, and_true, arith,
}
use handly_web_app.Contracts.Phone.{
  is_nine_digits, plus, country, exit_code, is_uz_phone, is_kept, with_plus_for_exit,
  with_plus_for_country, with_country, normalize_uz_phone,
}

-- The spellings of the number with the national digits `d`; a leading 8 is none of them.
pub data Spelling (d : List ℕ) : List ℕ → Type 0 where
  international : Spelling d (plus ∷ country ++ d)
  bare_country : Spelling d (country ++ d)
  exit : Spelling d (exit_code ++ country ++ d)
  national : is_prefix country d ≡ false → is_prefix exit_code d ≡ false → Spelling d d

plus_and_country :
    (s : List ℕ)
    → is_uz_phone s ≡ true
    → (d : List ℕ) × (s ≡ plus ∷ country ++ d) × (is_nine_digits d ≡ true)
unfolding is_uz_phone
plus_and_country s h =
    let (a, b) = and_true (is_prefix (plus ∷ country) s) _ h in
    let (d, e) = is_prefix-append (plus ∷ country) s a in
    (d, e, subst (λ x. is_nine_digits (drop 4 x) ≡ true) e b)

is_uz_phone_lem : (d : List ℕ) → is_nine_digits d ≡ true → is_uz_phone (plus ∷ country ++ d) ≡ true
unfolding is_uz_phone
is_uz_phone_lem d nine = nine

-- What the three rewritings make of a text without other characters.
abbrev rewritten : List ℕ → List ℕ
rewritten k = with_country (with_plus_for_country (with_plus_for_exit k))

with_country-plus : (r : List ℕ) → with_country (plus ∷ r) ≡ plus ∷ r
unfolding with_country
with_country-plus r = elim (Bool-cases (nat_beq (suc (length r)) 9)) [
  | inl e ↦ rw e refl
  | inr e ↦ rw e refl
]

with_plus_for_country-plus : (r : List ℕ) → with_plus_for_country (plus ∷ r) ≡ plus ∷ r
unfolding with_plus_for_country
with_plus_for_country-plus r = refl

after_exit :
    (k : List ℕ)
    → is_prefix exit_code k ≡ true
    → (r : List ℕ) × (k ≡ exit_code ++ r) × (rewritten k ≡ plus ∷ r)
unfolding with_plus_for_exit
after_exit k h =
    let (r, e) = is_prefix-append exit_code k h in
    (r, e, rw e (rw (with_plus_for_country-plus r) (with_country-plus r)))

after_country :
    (k : List ℕ)
    → is_prefix exit_code k ≡ false
    → is_prefix country k ≡ true
    → (r : List ℕ) × (k ≡ country ++ r) × (rewritten k ≡ plus ∷ country ++ r)
unfolding with_plus_for_exit with_plus_for_country
after_country k h c =
    let (r, e) = is_prefix-append country k c in
    (r, e, rw h (rw c (rw (with_country-plus k) (ap (λ x. plus ∷ x) e))))

neither :
    (k : List ℕ)
    → is_prefix exit_code k ≡ false
    → is_prefix country k ≡ false
    → rewritten k ≡ with_country k
unfolding with_plus_for_exit with_plus_for_country
neither k h c = rw h (rw c refl)

spelled : (k d : List ℕ) → rewritten k ≡ plus ∷ country ++ d → Spelling d k
unfolding with_country
spelled k d h = elim (Bool-cases (is_prefix exit_code k)) [
  | inl x ↦
      let (r, e, w) = after_exit k x in
      subst (Spelling d) (sym (e ∙ ap (λ t. exit_code ++ drop 1 t) (sym w ∙ h))) exit
  | inr x ↦ elim (Bool-cases (is_prefix country k)) [
    | inl c ↦
        let (r, e, w) = after_country k x c in
        subst (Spelling d) (sym (e ∙ ap (drop 1) (sym w ∙ h))) bare_country
    | inr c ↦ elim (Bool-cases (is_nine_digits k)) [
      | inl nine ↦
          let same : k ≡ d = ap (drop 4) (rw nine at (sym (neither k x c) ∙ h)) in
          subst (λ d. Spelling d k) same (national c x)
      | inr other ↦ subst (Spelling d) (sym (rw other at (sym (neither k x c) ∙ h))) international
    ]
  ]
]

rewritten_lem :
    (d k : List ℕ) → is_nine_digits d ≡ true → Spelling d k → rewritten k ≡ plus ∷ country ++ d
unfolding with_country with_plus_for_exit with_plus_for_country
rewritten_lem d _ nine international = with_country-plus (country ++ d)
rewritten_lem d _ nine bare_country = with_country-plus (country ++ d)
rewritten_lem d _ nine exit = with_country-plus (country ++ d)
rewritten_lem d _ nine (national c x) = neither d x c ∙ rw nine refl

-- A text is taken for a phone exactly when its digits and plus signs are a spelling of nine national
-- digits, and the phone is +998 and these; the nine digits alone are one only if they begin with neither
-- 998 nor 00.
pub normalize_uz_phone_iff :
    (input phone : List ℕ)
    → (normalize_uz_phone input ≡ some phone) ↔ (
        (d : List ℕ) × (phone ≡ plus ∷ country ++ d)
        × (is_nine_digits d ≡ true)
        × Spelling d (keep_if is_kept input))
unfolding normalize_uz_phone
normalize_uz_phone_iff input phone = (λ h. sound h, λ s. complete s)
  where
    k : List ℕ
    k = keep_if is_kept input

    sound :
        normalize_uz_phone input ≡ some phone
        → (d : List ℕ) × (phone ≡ plus ∷ country ++ d) × (is_nine_digits d ≡ true) × Spelling d k
    sound h = elim (Bool-cases (is_uz_phone (rewritten k))) [
      | inl e ↦
          let (d, w, nine) = plus_and_country (rewritten k) e in
          let same : rewritten k ≡ phone = ground (arith, rw e at h) in
          (d, sym same ∙ w, nine, spelled k d w)
      | inr e ↦ absurd (ground (arith, rw e at h))
    ]

    complete :
        (d : List ℕ) × (phone ≡ plus ∷ country ++ d) × (is_nine_digits d ≡ true) × Spelling d k
        → normalize_uz_phone input ≡ some phone
    complete (d, e, nine, s) =
        let w = rewritten_lem d k nine s in rw (w, is_uz_phone_lem d nine) (ap some (sym e))
