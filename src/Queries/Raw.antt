-- ===== src/Queries/Raw.antt =====
-- x/wasm/keeper/keeper.go: the queries of a contract's own entries, by key and by range. An iterator is
-- the list of what it stands on: it goes from its start to before its end, or back.
use independency_daemon.Base.{
  ℕ, zero, suc, Bool, true, ◌&&◌, not, List, [], ◌∷◌, ◌++◌, Option, none, some, Bytes, bytes_lt,
  if◌then◌else◌,
}
use independency_daemon.Keys.{contract_store_prefix}
use independency_daemon.Chain.{Chain, M, Entry, reads}

-- What lies in a domain of keys, where a missing bound is none.
abbrev pub not_before : Option Bytes → Bytes → Bool
not_before none key = true
not_before (some start) key = not (bytes_lt key start)

abbrev pub is_before : Option Bytes → Bytes → Bool
is_before none key = true
is_before (some end_) key = bytes_lt key end_

unfoldable pub in_domain : Option Bytes → Option Bytes → List Entry → List Entry
in_domain start end_ [] = []
in_domain start end_ (e ∷ entries) =
    let rest = in_domain start end_ entries in
    if not_before start e.0 && is_before end_ e.0 then e ∷ rest else rest

unfoldable pub backwards : List Entry → List Entry
backwards [] = []
backwards (e ∷ entries) = backwards entries ++ (e ∷ [])

-- The loop of `QueryRawRange`: at most so many results, and the key of the next one.
unfoldable pub page_of : ℕ → List Entry → List Entry × Option Bytes
page_of limit [] = ([], none)
page_of zero (e ∷ entries) = ([], some e.0)
page_of (suc limit) (e ∷ entries) =
    let (results, next) = page_of limit entries in (e ∷ results, next)

module _ {c : Chain} where
  -- `QueryRaw`; there is no nil key, and nothing is found for a key that is not set.
  unfoldable pub query_raw : Bytes → Option Bytes → M c (Option Bytes)
  query_raw addr none = reads (λ s. none)
  query_raw addr (some key) = reads (λ s. c.get s.store (contract_store_prefix addr ++ key))

  -- `QueryRawRange`
  unfoldable pub query_raw_range :
      Bytes → Option Bytes → Option Bytes → ℕ → Bool → M c (List Entry × Option Bytes)
  unfolding in_domain backwards page_of
  query_raw_range addr start end_ limit reverse = reads (λ s.
      let entries = in_domain start end_ (c.scan s.store (contract_store_prefix addr)) in
      page_of limit (if reverse then backwards entries else entries))
