-- ===== src/Tests/Profiles.antt =====
-- Profiles and addresses on concrete inputs.
use handly_web_app.Prelude.{Bool, true, none, some, [], ◌∷◌, nat_eq, arith}
use handly_web_app.Store.{MasterProfile, Db, after}
use handly_web_app.Users.{
  MasterProfileUpdate, AddressCreate, update_master_profile, add_address, prefer_address,
  remove_address, run_addresses,
}
use handly_web_app.Users.Addresses.{HaveOneDefault, run_addresses-HaveOneDefault}
use handly_web_app.Samples.{plumber, sample_db}

abbrev plumbing : MasterProfileUpdate
plumbing = record {
  full_name = "Aziz";
  avatar_url = none;
  experience_years = 4;
  bio = none;
  skills = 7 ∷ 7 ∷ [];
  service_areas = [];
  pinfl = some 12345678901234;
  is_self_employed = true;
}

abbrev saved_plumber : MasterProfile
saved_plumber = record plumber {
  full_name = some "Aziz";
  experience_years = 4;
  pinfl_encrypted = some 12345678901234;
  is_self_employed = true;
  skills = 7 ∷ [];
  areas = [];
}

abbrev saved_db : Db
saved_db = after (update_master_profile (λ nonce text. text) 2 plumbing sample_db)

abbrev new_address : Bool → AddressCreate
new_address default = record {
  label = "Home";
  address_text = "Tashkent";
  latitude = 41;
  longitude = 69;
  is_default = default;
}

run_addresses-HaveOneDefault_example :
    HaveOneDefault
      (run_addresses sample_db (
        add_address 1 (new_address true)
        ∷ add_address 1 (new_address true)
        ∷ prefer_address 1 100
        ∷ remove_address 1 101
        ∷ [])).addresses
run_addresses-HaveOneDefault_example =
    run_addresses-HaveOneDefault
      (add_address 1 (new_address true)
        ∷ add_address 1 (new_address true)
        ∷ prefer_address 1 100
        ∷ remove_address 1 101
        ∷ [])
      sample_db (λ user. omega arith)
