-- ===== src/Users/Addresses.antt =====
-- The default address: users.service.ts of apps/api/src/modules/users.
use handly_web_app.Prelude.{
  ℕ, ◌≤◌, ◌≡◌, refl, subst, inl, inr, Bool, true, false, ◌&&◌, ◌==◌, nat_eq, nat_beq_iff, nat_beq,
  Option, none, some, List, [], ◌∷◌, Table, lookup, insert, update, update_many, count,
  count-insert, count-update-le, count-update_many_le, count-update_many_lost, count-update-suc,
  count-delete_many, lookup-update_many, Bool-cases, and_true, arith,
}
use handly_web_app.Store.{Address, Db, after, returns, Ensures-after, Ensures-guard}
use handly_web_app.Users.{
  AddressCreate, is_of, as_default, belongs_to, unset_default, create_address, set_default_address,
  delete_address, AddressRequest, add_address, prefer_address, remove_address, handle_address,
  run_addresses,
}

abbrev pub is_default_of : ℕ → ℕ → Address → Bool
is_default_of user _ a = a.user_id == user && a.is_default

-- No user has two default addresses.
abbrev pub HaveOneDefault : Table Address → Type 0
HaveOneDefault t = (user : ℕ) → count (is_default_of user) t ≤ 1

unset_none :
    (user : ℕ) (t : Table Address)
    → count (is_default_of user) (update_many (is_of user) (as_default false) t) ≡ 0
unset_none user t =
    count-update_many_lost (is_default_of user) (is_of user) (as_default false) t
      (λ j w. ground arith) (λ j w h. ground (arith, h))

unset_le :
    (user other : ℕ) (t : Table Address)
    → count (is_default_of other) (update_many (is_of user) (as_default false) t)
      ≤ count (is_default_of other) t
unset_le user other t =
    count-update_many_le (is_default_of other) (is_of user) (as_default false) t
      (λ j w h. absurd (ground (arith, h)))

unset-HaveOneDefault :
    (user : ℕ) (t : Table Address)
    → HaveOneDefault t
    → HaveOneDefault (update_many (is_of user) (as_default false) t)
unset-HaveOneDefault user t one other = omega (arith, unset_le user other t, one other)

-- A row that is added for a user who has no default address by then, or that is no default.
insert-HaveOneDefault :
    (k : ℕ) (a : Address) (t : Table Address)
    → HaveOneDefault t
    → (a.is_default ≡ true → count (is_default_of a.user_id) t ≡ 0)
    → HaveOneDefault (insert k a t)
insert-HaveOneDefault k a t one room user =
    let added = count-insert k a (is_default_of user) t in
    elim (Bool-cases (is_default_of user k a)) [
      | inr other ↦ rw (added, other) (omega (arith, one user))
      | inl mine ↦
          let (same, default) = and_true (a.user_id == user) a.is_default mine in
          let empty : count (is_default_of user) t ≡ 0 =
            subst (λ u. count (is_default_of u) t ≡ 0) ((nat_beq_iff _ _).0 same) (room default) in
          rw (added, mine, empty) (omega arith)
    ]

-- The row that becomes the default is of a user who has none by then.
prefer-HaveOneDefault :
    (id user : ℕ) (a : Address) (t : Table Address)
    → HaveOneDefault t
    → count (is_default_of user) t ≡ 0
    → lookup id t ≡ some a
    → a.user_id ≡ user
    → HaveOneDefault (update id (as_default true) t)
prefer-HaveOneDefault id user a t one empty found own other = elim (Bool-cases (user == other)) [
  | inl same ↦
      let none_yet : count (is_default_of other) t ≡ 0 =
        subst (λ u. count (is_default_of u) t ≡ 0) ((nat_beq_iff _ _).0 same) empty in
      omega (arith, count-update-suc (is_default_of other) id (as_default true) t, none_yet)
  | inr differ ↦
      let fewer =
        count-update-le id (as_default true) (is_default_of other) t
          (λ v e h. absurd (ground (arith, e, found, own, differ, h))) in
      omega (arith, fewer, one other)
]

create_address-HaveOneDefault :
    (user : ℕ) (dto : AddressCreate) (db : Db)
    → HaveOneDefault db.addresses
    → HaveOneDefault (after (create_address user dto db)).addresses
unfolding create_address unset_default
create_address-HaveOneDefault user dto db one = elim (Bool-cases dto.is_default) [
  | inl default ↦ rw default (
      insert-HaveOneDefault db.next_id _ _ (unset-HaveOneDefault user db.addresses one)
        (λ _. unset_none user db.addresses))
  | inr plain ↦
      rw plain
        (insert-HaveOneDefault db.next_id _ db.addresses one (λ e. absurd (ground (arith, e))))
]

belongs_to_lem :
    (user : ℕ) (found : Option Address)
    → belongs_to user found ≡ true
    → (a : Address) × (found ≡ some a) × (a.user_id ≡ user)
belongs_to_lem user none h = absurd (ground arith)
belongs_to_lem user (some a) h = (a, refl, (nat_beq_iff _ _).0 h)

abbrev Defaults : Db → Type 0
Defaults db = HaveOneDefault db.addresses

set_default_address-HaveOneDefault :
    (user id : ℕ) (db : Db)
    → HaveOneDefault db.addresses
    → HaveOneDefault (after (set_default_address user id db)).addresses
unfolding set_default_address unset_default
set_default_address-HaveOneDefault user id db one = Ensures-after {E = Defaults} (
    Ensures-guard _ _ db _ one λ own.
      let (a, found, mine) = belongs_to_lem user (lookup id db.addresses) own in
      let plain = lookup-update_many id (is_of user) (as_default false) a db.addresses found in
      let there : lookup id (update_many (is_of user) (as_default false) db.addresses)
          ≡ some (as_default false a) =
        ground (arith, plain, mine) in
      returns (
        prefer-HaveOneDefault id user (as_default false a) _
          (unset-HaveOneDefault user db.addresses one) (unset_none user db.addresses) there mine))

delete_address-HaveOneDefault :
    (user id : ℕ) (db : Db)
    → HaveOneDefault db.addresses
    → HaveOneDefault (after (delete_address user id db)).addresses
unfolding delete_address
delete_address-HaveOneDefault user id db one = Ensures-after {E = Defaults} (
    Ensures-guard _ _ db _ one λ own. returns λ other. omega (
      arith,
      one other,
      count-delete_many (is_default_of other) (λ j v. nat_beq j id) db.addresses,
    ))

handle_address-HaveOneDefault :
    (r : AddressRequest) (db : Db)
    → HaveOneDefault db.addresses
    → HaveOneDefault (handle_address r db).addresses
unfolding handle_address
handle_address-HaveOneDefault (add_address user dto) db one =
    create_address-HaveOneDefault user dto db one
handle_address-HaveOneDefault (prefer_address user id) db one =
    set_default_address-HaveOneDefault user id db one
handle_address-HaveOneDefault (remove_address user id) db one =
    delete_address-HaveOneDefault user id db one

-- If it was so before, no sequence of requests by anyone gives a user two default addresses.
pub run_addresses-HaveOneDefault :
    (rs : List AddressRequest) (db : Db)
    → HaveOneDefault db.addresses
    → HaveOneDefault (run_addresses db rs).addresses
unfolding run_addresses
run_addresses-HaveOneDefault [] db one = one
run_addresses-HaveOneDefault (r ∷ rs) db one =
    run_addresses-HaveOneDefault rs (handle_address r db) (handle_address-HaveOneDefault r db one)
