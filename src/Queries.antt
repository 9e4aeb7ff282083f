-- ===== src/Queries.antt =====
-- x/wasm/keeper/querier.go and the queries of keeper.go. `FilteredPaginate` of the SDK, the query entry
-- point of wasmvm and the decoding of hexadecimal texts are parameters. The errors of gRPC are
-- invalid requests here. A request is never nil.
pub mod Raw
pub mod Smart
pub mod Listings
pub mod Paging
pub mod Recovery
use independency_daemon.Base.{
  ℕ, Bool, true, false, ◌||◌, not, List, [], ◌∷◌, Option, none, some, Bytes, ltb, ◌==◌,
  if◌then◌else◌, Outcome, ok, err, panic, invalid_address, invalid_request,
}
use independency_daemon.Chain.{Chain, Entry}
use independency_daemon.Keeper.{Keeper}

-- `query.PageRequest`
pub record PageRequest : Type 0 where
  pub key : Option Bytes
  pub offset : ℕ
  pub limit : ℕ
  pub count_total : Bool
  pub reverse : Bool

pub record Pages : Type 0 where
  -- the entries of a page, and the response
  pub paginate : List Entry → PageRequest → Outcome (List Entry × Bytes)

abbrev pub max_result_entries : ℕ
max_result_entries = 100

-- `query.DefaultLimit`
abbrev pub default_limit : ℕ
default_limit = 100

-- `ensurePaginationParams`
unfoldable pub ensure_pagination_params : Option PageRequest → Outcome PageRequest
ensure_pagination_params none =
    ok (record {
      key = none;
      offset = 0;
      limit = default_limit;
      count_total = false;
      reverse = false;
    })
ensure_pagination_params (some req) =
    if not (req.offset == 0) || req.count_total
    then err invalid_request
    else (if ltb max_result_entries req.limit || (req.limit == 0)
        then ok (record req { limit = max_result_entries })
        else ok req)

abbrev pub account : {c : Chain} → Keeper c → Bytes → Outcome Bytes
account k text = elim (k.bech.from_bech32 text) [ none ↦ err invalid_address | some a ↦ ok a ]

-- What is read of each entry of a page, until it cannot be read.
unfoldable pub read_each : {A : Type 0} → (Entry → Outcome A) → List Entry → Outcome (List A)
read_each read [] = ok []
read_each read (e ∷ entries) = elim (read e) [
  | ok a ↦ elim (read_each read entries) [
    | ok rest ↦ ok (a ∷ rest)
    | err x ↦ err x
    | panic p ↦ panic p
  ]
  | err x ↦ err x
  | panic p ↦ panic p
]
