-- ===== src/Gas/Events.antt =====
-- `EventCosts`: the price of a contract's events, and how far the free tier reaches.
use independency_daemon.Base.{
  ℕ, ◌+◌, ◌-◌, ◌*◌, ◌%◌, ◌<◌, ◌≡◌, ap, ◌∙◌, List, [], ◌∷◌, ok, arith, length,
}
use independency_daemon.Gas.{
  Config, u64, Attribute, Event, stored_bytes, calc_with_free_tier, event_attribute_costs,
  custom_event_costs, event_costs,
}

-- The bytes of keys and values.
abbrev pub attr_bytes : List Attribute → ℕ
attr_bytes [] = 0
attr_bytes (a ∷ attrs) = length a.key + length a.value + attr_bytes attrs

abbrev pub events_attr_bytes : List Event → ℕ
events_attr_bytes [] = 0
events_attr_bytes (e ∷ events) = attr_bytes e.attributes + events_attr_bytes events

abbrev pub events_attr_count : List Event → ℕ
events_attr_count [] = 0
events_attr_count (e ∷ events) = length e.attributes + events_attr_count events

abbrev pub type_bytes : List Event → ℕ
type_bytes [] = 0
type_bytes (e ∷ events) = length e.ty + type_bytes events

stored_bytes_exact :
    (attrs : List Attribute) (acc : ℕ)
    → acc + attr_bytes attrs < u64
    → stored_bytes attrs acc ≡ acc + attr_bytes attrs
unfolding stored_bytes
stored_bytes_exact [] acc fits = omega arith
stored_bytes_exact (a ∷ attrs) acc fits =
    let e : (acc + (length a.key + length a.value) % u64) % u64
        ≡ acc + (length a.key + length a.value) =
      omega arith in
    rw e (
      omega (arith, stored_bytes_exact attrs (acc + (length a.key + length a.value)) (omega arith)))

calc_exact : (stored free : ℕ) → calc_with_free_tier stored free ≡ (stored - free, free - stored)
unfolding calc_with_free_tier
calc_exact stored free = ground arith

pub event_attribute_costs_exact :
    (c : Config) (attrs : List Attribute) (free : ℕ)
    → attr_bytes attrs < u64
    → c.event_attribute_data_cost * (attr_bytes attrs - free)
        + c.event_per_attribute_cost * length attrs
      < u64
    → event_attribute_costs c attrs free
      ≡ ok (
        c.event_attribute_data_cost * (attr_bytes attrs - free)
            + c.event_per_attribute_cost * length attrs,
        free - attr_bytes attrs,
      )
unfolding event_attribute_costs
event_attribute_costs_exact c [] free small fits = ground arith
event_attribute_costs_exact c (a ∷ attrs) free small fits =
    let e : stored_bytes (a ∷ attrs) 0 ≡ attr_bytes (a ∷ attrs) =
      omega (arith, stored_bytes_exact (a ∷ attrs) 0 (omega arith)) in
    rw (e, calc_exact) (ground arith)

-- What a list of events costs, from a free tier: the free tier is spent on the attributes in order,
-- and reaches over the whole list.
abbrev events_total : Config → List Event → ℕ → ℕ
events_total c events free =
    length events * c.custom_event_cost
    + type_bytes events * c.event_attribute_data_cost
    + c.event_attribute_data_cost * (events_attr_bytes events - free)
    + c.event_per_attribute_cost * events_attr_count events

-- Spending the free tier on two groups one after the other is spending it on both at once.
split_free : (d b1 b2 free : ℕ) → d * (b1 + b2 - free) ≡ d * (b1 - free) + d * (b2 - (free - b1))
split_free d b1 b2 free =
    let e : b1 + b2 - free ≡ (b1 - free) + (b2 - (free - b1)) = omega arith in rw e (omega arith)

custom_event_costs_exact :
    (c : Config) (events : List Event) (gas free : ℕ)
    → events_attr_bytes events < u64
    → gas + events_total c events free < u64
    → custom_event_costs c events gas free ≡ ok (gas + events_total c events free)
unfolding custom_event_costs
custom_event_costs_exact c [] gas free small fits = ground arith
custom_event_costs_exact c (e ∷ events) gas free small fits =
    let head_cost : ℕ =
      c.event_attribute_data_cost * (attr_bytes e.attributes - free)
      + c.event_per_attribute_cost * length e.attributes in
    let next_gas : ℕ =
      gas + c.custom_event_cost + length e.ty * c.event_attribute_data_cost + head_cost in
    let split =
      split_free c.event_attribute_data_cost (attr_bytes e.attributes) (events_attr_bytes events)
        free in
    let total : next_gas + events_total c events (free - attr_bytes e.attributes)
        ≡ gas + events_total c (e ∷ events) free =
      omega (arith, split) in
    let wrap : next_gas % u64 ≡ next_gas = omega (arith, total) in
    rw (event_attribute_costs_exact c e.attributes free (omega arith) (omega (arith, total)), wrap)
      (custom_event_costs_exact c events next_gas (free - attr_bytes e.attributes) (omega arith)
          (omega (arith, total))
        ∙ ap ok total)

-- What `EventCosts` is to charge: each attribute and each event at its flat price, and each byte at
-- the data price, but for the free tier, which counts once over all attributes of the response.
abbrev pub response_total : Config → List Attribute → List Event → ℕ
response_total c attrs events =
    c.event_per_attribute_cost * (length attrs + events_attr_count events)
    + length events * c.custom_event_cost
    + type_bytes events * c.event_attribute_data_cost
    + c.event_attribute_data_cost
      * (attr_bytes attrs + events_attr_bytes events - c.event_attribute_data_free_tier)

-- Where the total is below 2^64 and the attributes have fewer than 2^64 bytes, `EventCosts`
-- charges exactly the total, with the free tier counted once over the whole response.
pub event_costs_exact :
    (c : Config) (attrs : List Attribute) (events : List Event)
    → attr_bytes attrs + events_attr_bytes events < u64
    → response_total c attrs events < u64
    → event_costs c attrs events ≡ ok (response_total c attrs events)
unfolding event_costs
event_costs_exact c attrs events small fits =
    let free : ℕ = c.event_attribute_data_free_tier in
    let gas : ℕ =
      c.event_attribute_data_cost * (attr_bytes attrs - free)
      + c.event_per_attribute_cost * length attrs in
    let split =
      split_free c.event_attribute_data_cost (attr_bytes attrs) (events_attr_bytes events) free in
    let total : gas + events_total c events (free - attr_bytes attrs)
        ≡ response_total c attrs events =
      omega (arith, split) in
    rw (event_attribute_costs_exact c attrs free (omega arith) (omega (arith, total))) (
      custom_event_costs_exact c events gas (free - attr_bytes attrs) (omega arith)
        (omega (arith, total))
      ∙ ap ok total)
