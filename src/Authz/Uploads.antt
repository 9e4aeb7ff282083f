-- ===== src/Authz/Uploads.antt =====
-- x/wasm/types/authz.go: `StoreCodeAuthorization.Accept`, which unpacks and hashes the code.
use independency_daemon.Base.{
  Bool, List, Option, none, some, Bytes, length, if◌then◌else◌, invalid_request,
}
use independency_daemon.Gas.{Config, pos, uncompress_costs}
use independency_daemon.Chain.{Chain, M, ◌>>=◌, ◌>>◌, pure, fail, lift, consume_gas}
use independency_daemon.Keeper.Codes.{max_wasm_size, under}
use independency_daemon.Authz.{
  CodeGrant, SdkMsg, store_code_msg, execute_msg, migrate_msg, other_msg, Rules,
}
use independency_daemon.Authz.Codes.{any_code_grant}

module _ (r : Rules) {c : Chain} where
  abbrev pub unzip : Bytes → Option Config → M c Bytes
  unzip code none = fail invalid_request
  unzip code (some register) = do
    cost ← lift (uncompress_costs register (pos (length code)))
    consume_gas cost
    lift (under invalid_request (r.uncompress code max_wasm_size))

  unfoldable pub unzipped : Bytes → M c Bytes
  unzipped code = if r.is_gzip code then unzip code r.gas_register else pure code

  -- `StoreCodeAuthorization.Accept`: whether the message is accepted.
  unfoldable pub store_code_accept : List CodeGrant → SdkMsg → M c Bool
  unfolding unzipped any_code_grant
  store_code_accept grants (store_code_msg m) = do
    code ← unzipped m.wasm_byte_code
    checksum ← lift (under invalid_request (r.create_checksum code))
    lift (any_code_grant r grants checksum m.instantiate_permission)
  store_code_accept grants (execute_msg m) = fail invalid_request
  store_code_accept grants (migrate_msg m) = fail invalid_request
  store_code_accept grants other_msg = fail invalid_request
