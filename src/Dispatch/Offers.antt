-- ===== src/Dispatch/Offers.antt =====
-- The offer that a master sees: `getCurrentOffer` and `toOfferDto` of
-- apps/api/src/modules/dispatch/dispatch.service.ts, and that it can be accepted.
use handly_web_app.Prelude.{
  ℕ, ◌≡◌, refl, sym, ap, subst, ◌∙◌, inl, inr, Bool, true, ◌&&◌, ◌==◌, nat_eq, ltb, leb, Option,
  none, some, String, Table, lookup, find_last, find_last-met, find_last-lookup, HasDistinctKeys,
  Option-cases, and_true, arith,
}
use handly_web_app.Contracts.{status_eq, searching, ServiceTier, Complexity, offered, dispatch_eq}
use handly_web_app.Store.{Order, Dispatch, Db, Outcome, ok, err, M, gets}
use handly_web_app.Dispatch.Service.{accept_offer}
use handly_web_app.Dispatch.Service.Accept.{
  is_acceptable, IsAccepted, Answer, refused, taken, accept_offer-Answer,
}

pub record OfferDto : Type 0 where
  pub dispatch_id : ℕ
  pub order_id : ℕ
  pub description : String
  pub service_tier : ServiceTier
  pub complexity : Option Complexity
  pub address_text : Option String
  pub distance_m : ℕ
  pub price_min : Option ℕ
  pub price_max : Option ℕ
  pub platform_fee : ℕ
  pub expires_at : ℕ

abbrev pub is_current_offer : ℕ → ℕ → ℕ → Dispatch → Bool
is_current_offer master now _ d =
    (d.master_id == master && d.status == offered) && ltb now d.expires_at

abbrev pub offer_view : ℕ → Dispatch → Option Order → Option OfferDto
offer_view id d none = none
offer_view id d (some o) = some (record {
  dispatch_id = id;
  order_id = d.order_id;
  description = o.description;
  service_tier = o.service_tier;
  complexity = o.complexity;
  address_text = o.address_text;
  distance_m = d.distance_m;
  price_min = o.price_min;
  price_max = o.price_max;
  platform_fee = o.platform_fee;
  expires_at = d.expires_at;
})

unfoldable pub to_offer_dto : Option (ℕ × Dispatch) → Db → Option OfferDto
to_offer_dto none db = none
to_offer_dto (some r) db = offer_view r.0 r.1 (lookup r.1.order_id db.orders)

unfoldable pub get_current_offer : ℕ → M (Option OfferDto)
get_current_offer master =
    gets λ db. to_offer_dto (find_last (is_current_offer master db.now) db.dispatches) db

-- The row behind the offer that was shown.
shown_row :
    (master : ℕ) (offer : OfferDto) (db : Db) (x : Option (ℕ × Dispatch))
    → to_offer_dto x db ≡ some offer
    → (d : Dispatch) × (x ≡ some (offer.dispatch_id, d)) × (offer.order_id ≡ d.order_id)
unfolding to_offer_dto
shown_row master offer db none h = absurd (ground (arith, h))
shown_row master offer db (some (id, d)) h = elim (Option-cases (lookup d.order_id db.orders)) [
  | inl gone ↦ absurd (ground (arith, rw gone at h))
  | inr (o, e) ↦
      let same = rw e at h in
      let to_id = ap (λ x. elim x [ none ↦ id | some f ↦ f.dispatch_id ]) same in
      let to_order = ap (λ x. elim x [ none ↦ d.order_id | some f ↦ f.order_id ]) same in
      (d, ap (λ i. some (i, d)) to_id, sym to_order)
]

current_offer-is_acceptable :
    (master now id : ℕ) (d : Dispatch) (o : Order) (orders : Table Order)
    → is_current_offer master now id d ≡ true
    → lookup d.order_id orders ≡ some o
    → o.status ≡ searching
    → is_acceptable master now orders (some d) ≡ true
current_offer-is_acceptable master now id d o orders met there sought =
    let (both, time) = and_true (d.master_id == master && d.status == offered) _ met in
    let (mine, offer) = and_true (d.master_id == master) _ both in
    let late : leb now d.expires_at ≡ true = ground (arith, time) in
    rw (mine, there, sought, offer, late) refl

answered-taken :
    (id master : ℕ) (db : Db) (d : Dispatch) {r : Outcome (Unit {0})}
    → lookup id db.dispatches ≡ some d
    → is_acceptable master db.now db.orders (some d) ≡ true
    → Answer id master db r
    → (db' : Db) × (o : Order) × (r ≡ ok tt db') × IsAccepted id master d o db db'
answered-taken id master db d there fits (refused e unfit) =
    absurd (ground (arith, fits, rw there at unfit))
answered-taken id master db d there fits (taken db' d' o there' found fits' accepted) =
    let same : d' ≡ d = ap (λ x. elim x [ none ↦ d | some y ↦ y ]) (sym there' ∙ there) in
    (db', o, refl, subst (λ y. IsAccepted id master y o db db') same accepted)

-- The offer that a master is shown can be accepted: accepted at once, while its order is searched for,
-- it is not refused, and then the order is the master's and no offer of it is open any more, where the
-- ids of offers are distinct.
pub get_current_offer-accept_offer :
    (master : ℕ) (offer : OfferDto) (o : Order) (db : Db)
    → HasDistinctKeys db.dispatches
    → get_current_offer master db ≡ ok (some offer) db
    → lookup offer.order_id db.orders ≡ some o
    → o.status ≡ searching
    → (db' : Db) × (d : Dispatch) × (row : Order) × (accept_offer offer.dispatch_id master db
        ≡ ok tt db')
      × IsAccepted offer.dispatch_id master d row db db'
unfolding get_current_offer
get_current_offer-accept_offer master offer o db distinct shown there sought =
    let p = is_current_offer master db.now in
    let x = find_last p db.dispatches in
    let view = ap (λ r. elim r [ ok f _ ↦ f | err _ _ ↦ some offer ]) shown in
    let (d, found, order) = shown_row master offer db x view in
    let row = find_last-lookup p offer.dispatch_id d db.dispatches distinct found in
    let met = find_last-met p offer.dispatch_id d db.dispatches found in
    let fits =
      current_offer-is_acceptable master db.now offer.dispatch_id d o db.orders met
        (subst (λ k. lookup k db.orders ≡ some o) order there) sought in
    let (db', saved, answer, accepted) =
      answered-taken offer.dispatch_id master db d row fits
        (accept_offer-Answer offer.dispatch_id master db) in
    (db', d, saved, answer, accepted)
