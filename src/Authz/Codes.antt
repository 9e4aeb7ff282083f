-- ===== src/Authz/Codes.antt =====
-- x/wasm/types/authz.go: grants to upload code.
use independency_daemon.Base.{
  Bool, true, false, not, ◌&&◌, List, [], ◌∷◌, Option, none, some, Bytes, contains, length, ◌==◌,
  if◌then◌else◌, Outcome, ok, err, panic, ◌>>=◌, ◌>>◌, empty, invalid_request, other_panic,
}
use independency_daemon.Access.{AccessConfig, config_is_subset, validate_config}
use independency_daemon.Authz.{CodeGrant, Rules}

-- `CodehashWildcard`
abbrev pub codehash_wildcard : Bytes
codehash_wildcard = b'*' ∷ []

-- `IsSubset` through a pointer: a nil permission panics.
unfoldable pub permission_is_subset : Option AccessConfig → AccessConfig → Outcome Bool
permission_is_subset none super = panic other_panic
permission_is_subset (some a) super = ok (config_is_subset a super)

-- The permission that the grant asks for, if it asks for one.
unfoldable pub permits : Option AccessConfig → Option AccessConfig → Outcome Bool
unfolding permission_is_subset
permits none permission = ok true
permits (some super) permission = permission_is_subset permission super

module _ (r : Rules) where
  -- `CodeGrant.ValidateBasic`
  abbrev pub validate_given : Option AccessConfig → Outcome (Unit {0})
  validate_given none = ok tt
  validate_given (some a) = validate_config r.checks.bech a

  unfoldable pub validate_code_grant : CodeGrant → Outcome (Unit {0})
  validate_code_grant g =
      if length g.code_hash == 0 then err empty else validate_given g.instantiate_permission

  -- `CodeGrant.Accept`
  unfoldable pub code_grant_accept : CodeGrant → Bytes → Option AccessConfig → Outcome Bool
  unfolding permits
  code_grant_accept g checksum permission =
      if not (r.equal_fold g.code_hash codehash_wildcard) && not (r.equal_fold g.code_hash checksum)
      then ok false
      else permits g.instantiate_permission permission

  -- The loop of `StoreCodeAuthorization.Accept`.
  unfoldable pub any_code_grant : List CodeGrant → Bytes → Option AccessConfig → Outcome Bool
  unfolding code_grant_accept
  any_code_grant [] checksum permission = ok false
  any_code_grant (g ∷ gs) checksum permission =
      let rest = any_code_grant gs checksum permission in
      code_grant_accept g checksum permission >>= λ accepted. if accepted then ok true else rest

  -- The loop of `StoreCodeAuthorization.ValidateBasic` for several grants: the code hashes in lower
  -- case, each once.
  unfoldable pub distinct_hashes : List Bytes → List CodeGrant → Outcome (List Bytes)
  unfolding validate_code_grant
  distinct_hashes index [] = ok index
  distinct_hashes index (g ∷ gs) =
      let hash = r.to_lower g.code_hash in
      let rest = distinct_hashes (if contains index hash then index else hash ∷ index) gs in
      if r.equal_fold g.code_hash codehash_wildcard
      then err invalid_request
      else validate_code_grant g >> rest

  -- `StoreCodeAuthorization.ValidateBasic`
  unfoldable pub validate_code_grants : List CodeGrant → Outcome (Unit {0})
  unfolding validate_code_grant distinct_hashes
  validate_code_grants [] = err empty
  validate_code_grants (g ∷ []) = validate_code_grant g
  validate_code_grants (g ∷ h ∷ gs) = distinct_hashes [] (g ∷ h ∷ gs) >>= λ hashes.
      if length hashes == length (g ∷ h ∷ gs) then ok tt else err invalid_request
