-- ===== src/Dispatch/Sorting.antt =====
-- The attributes of the events that a contract is shown: sorted by key, in a stable way.
use mathlib.Core.List.{Perm}
use mathlib.Core.List.Perm
use independency_daemon.Base.{◌≡◌, false, List, [], ◌∷◌, Bytes, bytes_eq, bytes_lt, if◌then◌else◌}
use independency_daemon.Chain.{AbciAttribute}

-- No attribute has a smaller key than the one before it.
abbrev pub IsSorted : List AbciAttribute → Type 0
IsSorted [] = Unit {0}
IsSorted (a ∷ []) = Unit {0}
IsSorted (a ∷ b ∷ attrs) = (bytes_lt b.key a.key ≡ false) × IsSorted (b ∷ attrs)

-- The attributes with one key, in their order.
abbrev pub with_key : Bytes → List AbciAttribute → List AbciAttribute
with_key k [] = []
with_key k (a ∷ attrs) = if bytes_eq a.key k then a ∷ with_key k attrs else with_key k attrs
