-- ===== src/Queries/Paging.antt =====
-- Two pages of a range of keys are one larger page.
use independency_daemon.Base.{ℕ, ◌≡◌, true, List, [], ◌∷◌, ◌++◌, Option, some, Bytes, bytes_lt, All}
use independency_daemon.Chain.{Chain, Entry}
use independency_daemon.Queries.Raw.{in_domain, page_of}

-- Each key is below those after it.
abbrev pub IsAscending : List Entry → Type 0
IsAscending [] = Unit
IsAscending (e ∷ entries) =
    All (λ (f : Entry). bytes_lt e.0 f.0 ≡ true) entries × IsAscending entries

-- A page and the domain from the next key on are the whole domain.
abbrev Continues : Option Bytes → Option Bytes → ℕ → Bytes → List Entry → List Entry → Type 0
Continues start end_ n key entries found =
    found ≡ (page_of n found).0 ++ in_domain (some key) end_ entries
