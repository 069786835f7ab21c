-- ===== src/Tests/Offers.antt =====
-- The offer that a master is shown, on a concrete input.
use handly_web_app.Prelude.{◌≡◌, refl, none, false, [], ◌∷◌}
use handly_web_app.Contracts.{searching, offered}
use handly_web_app.Store.{Order, Dispatch, Db, ok}
use handly_web_app.Dispatch.Service.{accept_offer}
use handly_web_app.Dispatch.Service.Accept.{IsAccepted}
use handly_web_app.Dispatch.Offers.{
  OfferDto, to_offer_dto, get_current_offer, get_current_offer-accept_offer,
}
use handly_web_app.Samples.{sample_db, priced_order}

abbrev sought_order : Order
sought_order = record priced_order { status = searching }

abbrev offer_row : Dispatch
offer_row = record {
  order_id = 100;
  master_id = 2;
  rank_in_cascade = 1;
  distance_m = 900;
  status = offered;
  counted_as_lead = false;
  expires_at = 121000;
  responded_at = none;
}

abbrev shown_db : Db
shown_db = record sample_db {
  orders = (100, sought_order) ∷ [];
  dispatches = (101, offer_row) ∷ [];
}

abbrev shown_offer : OfferDto
shown_offer = record {
  dispatch_id = 101;
  order_id = 100;
  description = sought_order.description;
  service_tier = sought_order.service_tier;
  complexity = sought_order.complexity;
  address_text = sought_order.address_text;
  distance_m = 900;
  price_min = sought_order.price_min;
  price_max = sought_order.price_max;
  platform_fee = sought_order.platform_fee;
  expires_at = 121000;
}

get_current_offer-accept_offer_example :
    (db' : Db) × (d : Dispatch) × (row : Order) × (accept_offer 101 2 shown_db ≡ ok tt db')
    × IsAccepted 101 2 d row shown_db db'
unfolding get_current_offer to_offer_dto
get_current_offer-accept_offer_example =
    get_current_offer-accept_offer 2 shown_offer sought_order shown_db (refl, tt) refl refl refl
