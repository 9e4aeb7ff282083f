-- ===== src/Events/Origin.antt =====
-- Who an event comes from: no contract can pretend to be another one, or the chain.
use independency_daemon.Base.{
  ◌<◌, ◌≡◌, refl, Bool, true, false, List, [], ◌∷◌, ◌++◌, Bytes, All, length, Outcome, ok, err,
  arith, bind_inverts, ok_injective, ◌>>=◌, if◌then◌else◌, invalid_event, subst, leb,
}
use independency_daemon.Chain.{AbciEvent, AbciAttribute}
use independency_daemon.Gas.{Attribute, Event}
use independency_daemon.Events.{
  attribute, is_reserved, checked_attribute, custom_attributes, contract_event_attributes,
  custom_event, custom_events, sdk_event,
}
use independency_daemon.Events.Names.{custom_contract_event_prefix, attribute_key_contract_addr}
use independency_daemon.Events.Texts.{trim_space}

-- A key that a contract may use.
abbrev pub IsFree : AbciAttribute → Type 0
IsFree a = (is_reserved a.key ≡ false) × (0 < length a.key)

-- The attributes of an event from the contract with this address: the address, then free keys.
abbrev pub IsFrom : Bytes → List AbciAttribute → Type 0
IsFrom addr_text [] = ⊥
IsFrom addr_text (a ∷ attrs) =
    (a ≡ attribute attribute_key_contract_addr addr_text) × All IsFree attrs

-- A custom event of that contract: a name of three bytes or more behind the prefix.
abbrev pub IsCustomOf : Bytes → AbciEvent → Type 0
IsCustomOf addr_text e =
    ((name : Bytes) × (e.ty ≡ custom_contract_event_prefix ++ name) × (2 < length name))
    × IsFrom addr_text e.attributes

-- A list that is read element by element has what its parts have.
read_All :
    {A : Type 0} (P : A → Type 0) (first : Outcome A) (rest : Outcome (List A)) (l : List A)
    → (first >>= λ a. rest >>= λ more. ok (a ∷ more)) ≡ ok l
    → ((a : A) → first ≡ ok a → P a)
    → ((more : List A) → rest ≡ ok more → All P more)
    → All P l
read_All P first rest l h now later =
    let (a, made, h') = bind_inverts first (λ a. rest >>= λ more. ok (a ∷ more)) l h in
    let (more, made_more, whole) = bind_inverts rest (λ more. ok (a ∷ more)) l h' in
    subst (All P) {x = a ∷ more} (ok_injective _ _ whole) (now a made, later more made_more)

checked_attribute-IsFree :
    (k v : Bytes) (a : AbciAttribute) → checked_attribute k v ≡ ok a → IsFree a
checked_attribute-IsFree [] v a h = cc
checked_attribute-IsFree (b ∷ k) v a h = free (is_reserved (b ∷ k)) refl h
  where
    free :
        (r : Bool)
        → is_reserved (b ∷ k) ≡ r
        → (if r then err invalid_event else ok (attribute (b ∷ k) (trim_space v))) ≡ ok a
        → IsFree a
    free true e h' = cc
    free false e h' =
        let held : IsFree (attribute (b ∷ k) (trim_space v)) = (e, ground arith) in
        subst IsFree (ok_injective _ _ h') held

custom_attributes-IsFree :
    (ls : List Attribute) (attrs : List AbciAttribute)
    → custom_attributes ls ≡ ok attrs
    → All IsFree attrs
unfolding custom_attributes
custom_attributes-IsFree [] attrs h = subst (All IsFree) (ok_injective [] attrs h) tt
custom_attributes-IsFree (l ∷ ls) attrs h =
    read_All IsFree (checked_attribute (trim_space l.key) l.value) (custom_attributes ls) attrs h
      (checked_attribute-IsFree (trim_space l.key) l.value) (custom_attributes-IsFree ls)

contract_event_attributes-IsFrom :
    (ls : List Attribute) (addr_text : Bytes) (attrs : List AbciAttribute)
    → contract_event_attributes ls addr_text ≡ ok attrs
    → IsFrom addr_text attrs
unfolding contract_event_attributes
contract_event_attributes-IsFrom ls addr_text attrs h =
    let (more, custom, whole) =
      bind_inverts (custom_attributes ls)
        (λ attrs. ok (attribute attribute_key_contract_addr addr_text ∷ attrs)) attrs h in
    let held : IsFrom addr_text (attribute attribute_key_contract_addr addr_text ∷ more) =
      (refl, custom_attributes-IsFree ls more custom) in
    subst (IsFrom addr_text) (ok_injective _ _ whole) held

custom_event-IsCustomOf :
    (name : Bytes) (ls : List Attribute) (addr_text : Bytes) (e : AbciEvent)
    → custom_event name ls addr_text ≡ ok e
    → IsCustomOf addr_text e
unfolding custom_event
custom_event-IsCustomOf name ls addr_text e h = long_enough (leb (length name) 2) refl h
  where
    long_enough :
        (short : Bool)
        → leb (length name) 2 ≡ short
        → (if short
            then err invalid_event
            else (contract_event_attributes ls addr_text >>= λ attrs.
                ok (sdk_event (custom_contract_event_prefix ++ name) attrs)))
          ≡ ok e
        → IsCustomOf addr_text e
    long_enough true is_short h' = cc
    long_enough false is_short h' =
        let (attrs, made, whole) =
          bind_inverts (contract_event_attributes ls addr_text)
            (λ attrs. ok (sdk_event (custom_contract_event_prefix ++ name) attrs)) e h' in
        let held : IsCustomOf addr_text (sdk_event (custom_contract_event_prefix ++ name) attrs) =
          ((name, refl, ground arith), contract_event_attributes-IsFrom ls addr_text attrs made) in
        subst (IsCustomOf addr_text) (ok_injective _ _ whole) held

-- Every custom event of a contract has the prefix of the module before a name of at least three
-- bytes, and carries the contract's own address, followed only by attributes whose keys are not
-- empty and not reserved.
pub custom_events-IsCustomOf :
    (evts : List Event) (addr_text : Bytes) (events : List AbciEvent)
    → custom_events evts addr_text ≡ ok events
    → All (IsCustomOf addr_text) events
unfolding custom_events
custom_events-IsCustomOf [] addr_text events h =
    subst (All (IsCustomOf addr_text)) (ok_injective [] events h) tt
custom_events-IsCustomOf (e ∷ evts) addr_text events h =
    read_All (IsCustomOf addr_text) (custom_event (trim_space e.ty) e.attributes addr_text)
      (custom_events evts addr_text) events h
      (custom_event-IsCustomOf (trim_space e.ty) e.attributes addr_text)
      (custom_events-IsCustomOf evts addr_text)
