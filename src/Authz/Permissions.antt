-- ===== src/Authz/Permissions.antt =====
-- What an accepted upload has passed, and an upload that makes the authorization panic.
use independency_daemon.Base.{◌≡◌, ◌⊎◌, true, List, ◌∷◌, ◌++◌, Option, none, some, Bytes, ok}
use independency_daemon.Access.{AccessConfig, allowed}
use independency_daemon.Authz.{CodeGrant, Rules}
use independency_daemon.Authz.Codes.{codehash_wildcard}

module _ (r : Rules) where
  abbrev pub MatchesHash : CodeGrant → Bytes → Type 0
  MatchesHash g checksum =
      (r.equal_fold g.code_hash codehash_wildcard ≡ true)
      ⊎ (r.equal_fold g.code_hash checksum ≡ true)

  -- Whom the permission of the message lets instantiate, the grant's permission lets, if it has one.
  abbrev pub StaysWithin : Option AccessConfig → Option AccessConfig → Type 0
  StaysWithin none permission = Unit {0}
  StaysWithin (some super) permission =
      (p : AccessConfig) × (permission ≡ some p)
      × ((actor : Bytes)
          → allowed r.checks.bech p actor ≡ ok true
          → allowed r.checks.bech super actor ≡ ok true)

  -- One of the grants is for this upload.
  abbrev pub CoveredBy : List CodeGrant → Bytes → Option AccessConfig → Type 0
  CoveredBy gs checksum permission =
      (before : List CodeGrant) × (g : CodeGrant) × (rest : List CodeGrant) × (gs
        ≡ before ++ (g ∷ rest))
      × MatchesHash g checksum
      × StaysWithin g.instantiate_permission permission
