-- ===== src/Sdk/Wire.antt =====
-- What `OpenWrapperClient` makes of the JSON that the service sends: `fromWire` and its kin in
-- sdk/typescript/src/client.ts. The wire types are not checked at run time, so a field is any JSON value
-- or undefined (none), and a body that is undefined has no properties to read.
use openwrapper.Prelude.{Option, none, some, List, [], ◌∷◌}
use openwrapper.Js.Text.{codes}
use openwrapper.Js.Json.{Json, null, arr, Elems, nil, cons, get}

pub record Payment : Type 0 where
  pub payment_id : Option Json
  pub provider : Option Json
  pub provider_reference : Option Json
  pub status : Option Json
  pub amount_minor_units : Option Json
  pub currency : Option Json
  pub merchant_reference : Option Json
  pub next_action : Option Json

pub record Refund : Type 0 where
  pub id : Option Json
  pub payment_id : Option Json
  pub amount_minor_units : Option Json
  pub currency : Option Json
  pub status : Option Json
  pub reason : Option Json
  pub provider_refund_ref : Option Json
  pub created_at : Option Json

pub record Event : Type 0 where
  pub id : Option Json
  pub user_id : Option Json
  pub event_type : Option Json
  pub resource_id : Option Json
  pub payload : Option Json
  pub created_at : Option Json

pub record WebhookEndpoint : Type 0 where
  pub id : Option Json
  pub user_id : Option Json
  pub url : Option Json
  pub secret : Option Json
  pub events : Option Json
  pub is_active : Option Json
  pub created_at : Option Json

-- `fromWire`
unfoldable pub from_wire : Json → Payment
unfolding get
from_wire w = record {
  payment_id = get w (codes "payment_id");
  provider = get w (codes "provider");
  provider_reference = get w (codes "provider_reference");
  status = get w (codes "status");
  amount_minor_units = get w (codes "amount_minor_units");
  currency = get w (codes "currency");
  merchant_reference = get w (codes "merchant_reference");
  next_action = get w (codes "next_action");
}

-- `fromWireRefund`
unfoldable pub from_wire_refund : Json → Refund
unfolding get
from_wire_refund w = record {
  id = get w (codes "id");
  payment_id = get w (codes "payment_id");
  amount_minor_units = get w (codes "amount_minor_units");
  currency = get w (codes "currency");
  status = get w (codes "status");
  reason = get w (codes "reason");
  provider_refund_ref = get w (codes "provider_refund_ref");
  created_at = get w (codes "created_at");
}

-- `fromWireEvent`
unfoldable pub from_wire_event : Json → Event
unfolding get
from_wire_event w = record {
  id = get w (codes "id");
  user_id = get w (codes "user_id");
  event_type = get w (codes "event_type");
  resource_id = get w (codes "resource_id");
  payload = get w (codes "payload");
  created_at = get w (codes "created_at");
}

-- `fromWireEndpoint`
unfoldable pub from_wire_endpoint : Json → WebhookEndpoint
unfolding get
from_wire_endpoint w = record {
  id = get w (codes "id");
  user_id = get w (codes "user_id");
  url = get w (codes "url");
  secret = get w (codes "secret");
  events = get w (codes "events");
  is_active = get w (codes "is_active");
  created_at = get w (codes "created_at");
}

-- `wire.data.map(f)`, none where that throws: `data` is no array, or an item is null.
abbrev pub readable : {A : Type 0} → (Json → A) → Json → Option A
readable f null = none
readable f v = some (f v)

abbrev add_item : {A : Type 0} → Option A → Option (List A) → Option (List A)
add_item (some a) (some rest) = some (a ∷ rest)
add_item _ _ = none

unfoldable pub map_items : {A : Type 0} → (Json → A) → Elems → Option (List A)
map_items f nil = some []
map_items f (cons v vs) = add_item (readable f v) (map_items f vs)

abbrev items_of : {A : Type 0} → (Json → A) → Option Json → Option (List A)
items_of f (some (arr vs)) = map_items f vs
items_of f _ = none

unfoldable pub read_list : {A : Type 0} → (Json → A) → Json → Option (List A)
unfolding get map_items
read_list f w = items_of f (get w (codes "data"))
