-- ===== src/Users.antt =====
-- apps/api/src/modules/users/users.service.ts: profiles, the files of masters, and addresses.
pub mod Skills
pub mod Addresses
use handly_web_app.Prelude.{
  ℕ, ◌*◌, String, Bool, true, false, not, ◌&&◌, ◌==◌, nat_eq, leb, if◌then◌else◌, Option, none,
  some, List, [], ◌∷◌, Table, length, includes, keep_if, lookup, insert, update, update_many, count,
  delete, is_some, or_else,
}
use handly_web_app.Store.{
  CustomerProfile, Address, Category, ServiceArea, MasterProfile, MasterMedia, MasterMediaKind,
  Mime, jpeg, png, webp, heic, Db, Error, not_found, forbidden, bad_request, unsupported_media_type,
  M, ◌>>=◌, ◌>>◌, gets, modify, pure, guard, require, transaction, fresh_id, after,
}
use handly_web_app.Orders.Media.{File, matches_magic_bytes}
use handly_web_app.Auth.Users.{empty_master, empty_customer}

pub record CustomerProfileUpdate : Type 0 where
  pub full_name : String
  pub avatar_url : Option String

pub record MasterProfileUpdate : Type 0 where
  pub full_name : String
  pub avatar_url : Option String
  pub experience_years : ℕ
  pub bio : Option String
  pub skills : List ℕ
  pub service_areas : List ServiceArea
  pub pinfl : Option ℕ
  pub is_self_employed : Bool

pub record AddressCreate : Type 0 where
  pub label : String
  pub address_text : String
  pub latitude : ℕ
  pub longitude : ℕ
  pub is_default : Bool

-- A column that an update leaves out keeps its value.
abbrev pub given : {A : Type 0} → Option A → Option A → Option A
given none old = old
given (some a) old = some a

abbrev pub upsert : {V : Type 0} → ℕ → V → (V → V) → Option V → Table V → Table V
upsert k empty f none t = insert k (f empty) t
upsert k empty f (some _) t = update k f t

unfoldable pub update_customer_profile : ℕ → CustomerProfileUpdate → M (Unit {0})
update_customer_profile user dto = do
  old ← gets (λ db. lookup user db.customers)
  let write : CustomerProfile → CustomerProfile =
      λ c. record { full_name = some dto.full_name; avatar_url = given dto.avatar_url c.avatar_url }
  modify (λ db. record db { customers = upsert user empty_customer write old db.customers })

unfoldable pub get_master_profile : ℕ → M MasterProfile
get_master_profile user = do found ← gets (λ db. lookup user db.masters); require found not_found

abbrev pub since : Bool → ℕ → Option ℕ
since true now = some now
since false now = none

unfoldable pub set_master_availability : ℕ → Bool → M (Unit {0})
set_master_availability user is_online = do
  found ← gets (λ db. lookup user db.masters)
  _ ← require found not_found
  now ← gets (λ db. db.now)
  modify (λ db. record db {
    masters =
        update user (λ m. record m { is_online = is_online; online_since = since is_online now })
          db.masters;
  })

-- `new Set(skills)`.
unfoldable pub without_repeats : List ℕ → List ℕ
without_repeats [] = []
without_repeats (x ∷ xs) = x ∷ keep_if (λ y. not (y == x)) (without_repeats xs)

abbrev pub is_wanted : List ℕ → ℕ → Category → Bool
is_wanted skills k c = includes skills k && c.active

-- `encrypt` is AES-256-GCM with a random nonce, the first argument.
unfoldable pub written_profile :
    (ℕ → ℕ → ℕ) → MasterProfileUpdate → ℕ → MasterProfile → MasterProfile
written_profile encrypt dto nonce m = record m {
  full_name = some dto.full_name;
  avatar_url = given dto.avatar_url m.avatar_url;
  experience_years = dto.experience_years;
  bio = given dto.bio m.bio;
  is_self_employed = dto.is_self_employed;
  pinfl_encrypted = encrypted dto.pinfl;
  skills = without_repeats dto.skills;
  areas = dto.service_areas;
}
  where
    encrypted : Option ℕ → Option ℕ
    encrypted none = m.pinfl_encrypted
    encrypted (some pinfl) = some (encrypt nonce pinfl)

unfoldable pub update_master_profile : (ℕ → ℕ → ℕ) → ℕ → MasterProfileUpdate → M MasterProfile
update_master_profile encrypt user dto = do
  found ← gets (λ db. count (is_wanted dto.skills) db.categories)
  guard (found == length (without_repeats dto.skills)) bad_request
  nonce ← fresh_id
  old ← gets (λ db. lookup user db.masters)
  modify (λ db. record db {
    masters = upsert user empty_master (written_profile encrypt dto nonce) old db.masters;
  })
  get_master_profile user

-- `MASTER_MEDIA_MIMES`.
unfoldable pub is_master_mime : Mime → Bool
is_master_mime jpeg = true
is_master_mime png = true
is_master_mime webp = true
is_master_mime heic = true
is_master_mime _ = false

abbrev pub master_media_max_bytes : ℕ
master_media_max_bytes = 10 * 1024 * 1024

unfoldable pub add_master_media : ℕ → MasterMediaKind → File → Option String → M ℕ
add_master_media user kind file caption = do
  guard (is_master_mime file.mime) unsupported_media_type
  guard (leb (length file.buffer) master_media_max_bytes) bad_request
  guard (matches_magic_bytes file.buffer file.mime) unsupported_media_type
  object_key ← fresh_id
  id ← fresh_id
  let row : MasterMedia = record {
    master_id = user;
    kind = kind;
    object_key = object_key;
    mime = file.mime;
    caption = caption;
    admin_approved = false;
  }
  modify (λ db. record db { master_media = insert id row db.master_media })
  pure id

unfoldable pub delete_master_media : ℕ → ℕ → M (Unit {0})
delete_master_media user id = do
  found ← gets (λ db. lookup id db.master_media)
  media ← require found not_found
  guard (media.master_id == user) forbidden
  modify (λ db. record db { master_media = delete id db.master_media })

abbrev pub on_addresses : (Table Address → Table Address) → Db → Db
on_addresses f db = record db { addresses = f db.addresses }

abbrev pub is_of : ℕ → ℕ → Address → Bool
is_of user _ a = a.user_id == user

abbrev pub as_default : Bool → Address → Address
as_default default a = record a { is_default = default }

unfoldable pub unset_default : ℕ → M (Unit {0})
unset_default user = modify (on_addresses (update_many (is_of user) (as_default false)))

unfoldable pub create_address : ℕ → AddressCreate → M ℕ
create_address user dto = transaction (do
  (λ db. if dto.is_default then unset_default user db else pure tt db)
  id ← fresh_id
  let row : Address = record {
    user_id = user;
    label = dto.label;
    address_text = dto.address_text;
    latitude = dto.latitude;
    longitude = dto.longitude;
    is_default = dto.is_default;
  }
  modify (on_addresses (insert id row))
  pure id)

abbrev pub belongs_to : ℕ → Option Address → Bool
belongs_to user none = false
belongs_to user (some a) = a.user_id == user

unfoldable pub set_default_address : ℕ → ℕ → M (Unit {0})
set_default_address user id = do
  address ← gets (λ db. lookup id db.addresses)
  guard (belongs_to user address) not_found
  transaction (do unset_default user; modify (on_addresses (update id (as_default true))))

unfoldable pub delete_address : ℕ → ℕ → M (Unit {0})
delete_address user id = do
  address ← gets (λ db. lookup id db.addresses)
  guard (belongs_to user address) not_found
  modify (on_addresses (delete id))

pub data AddressRequest : Type 0 where
  add_address : ℕ → AddressCreate → AddressRequest
  prefer_address remove_address : ℕ → ℕ → AddressRequest

unfoldable pub handle_address : AddressRequest → Db → Db
handle_address (add_address user dto) db = after (create_address user dto db)
handle_address (prefer_address user id) db = after (set_default_address user id db)
handle_address (remove_address user id) db = after (delete_address user id db)

unfoldable pub run_addresses : Db → List AddressRequest → Db
run_addresses db [] = db
run_addresses db (r ∷ rs) = run_addresses (handle_address r db) rs
