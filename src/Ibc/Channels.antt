-- ===== src/Ibc/Channels.antt =====
-- x/wasm/ibc.go: the handshake and the closing of a channel, by the contract that owns the port.
use independency_daemon.Base.{
  ℕ, List, [], ◌∷◌, Option, Bytes, ltb, if◌then◌else◌, Outcome, ok, err, panic, empty, external,
}
use independency_daemon.Chain.{Chain, Context, M, ◌>>=◌, ◌>>◌, pure, lift, wrapping}
use independency_daemon.Keeper.{Keeper}
use independency_daemon.Keeper.Runtime.{Handler, or_error}
use independency_daemon.Ibc.{
  Endpoint, WasmChannel, open_init, open_try, open_ack, open_confirm, close_init, close_confirm,
  IbcVm, contract_from_port_id, first_hop,
}
use independency_daemon.Ibc.Relay.{on_open_channel, on_connect_channel, on_close_channel}

-- `channeltypes.Channel`, as far as it is read.
pub record Channel : Type 0 where
  pub ordering : Bytes
  pub counterparty : Endpoint
  pub connection_hops : List Bytes

-- The channel keeper, and `ParseChannelSequence`.
pub record Channels (c : Chain) : Type 0 where
  pub get_channel : Context → (port channel : Bytes) → M c (Option Channel)
  pub get_app_version : Context → (port channel : Bytes) → M c (Option Bytes)
  pub parse_channel_sequence : Bytes → Outcome ℕ

-- A missing channel or version is an error of ibc-go.
abbrev pub found_channel : Option Channel → Outcome Channel
found_channel = or_error (external 10)

abbrev pub found_version : Option Bytes → Outcome Bytes
found_version = or_error (external 11)

-- `ValidateChannelParams`: a channel number has 32 bits.
unfoldable pub validate_channel_params : (Bytes → Outcome ℕ) → Bytes → Outcome (Unit {0})
validate_channel_params parse channel = elim (parse channel) [
  | ok sequence ↦ if ltb 4_294_967_295 sequence then err (external 12) else ok tt
  | err e ↦ err e
  | panic p ↦ panic p
]

-- `toWasmVMChannel`
abbrev pub channel_by : Endpoint → Endpoint → Bytes → Bytes → Bytes → WasmChannel
channel_by endpoint counterparty order version connection = record {
  endpoint = endpoint;
  counterparty = counterparty;
  order = order;
  version = version;
  connection_id = connection;
}

module _ {c : Chain} where
  unfoldable pub to_wasm_vm_channel : Bytes → Bytes → Channel → Bytes → M c WasmChannel
  to_wasm_vm_channel port channel info version = do
    hop ← lift (first_hop info.connection_hops)
    pure (
        channel_by (record { port_id = port; channel_id = channel }) info.counterparty info.ordering
          version hop)

-- A version that the contract does not choose is the proposed one; for `OnChanOpenInit` it must not
-- be empty.
unfoldable pub init_version : Bytes → Bytes → Outcome Bytes
init_version [] [] = err empty
init_version [] (b ∷ version) = ok (b ∷ version)
init_version (b ∷ accepted) version = ok (b ∷ accepted)

unfoldable pub try_version : Bytes → Bytes → Bytes
try_version [] counterparty_version = counterparty_version
try_version (b ∷ version) counterparty_version = b ∷ version

module _ {c : Chain} (k : Keeper c) (vm : IbcVm c) (ck : Channels c) where
  abbrev pub owner : Bytes → M c Bytes
  owner port = wrapping (lift (contract_from_port_id k.bech port))

  abbrev pub proposed : Bytes → List Bytes → Bytes → Bytes → Endpoint → Bytes → M c WasmChannel
  proposed order hops port channel counterparty version = do
    hop ← lift (first_hop hops)
    pure (
        channel_by (record { port_id = port; channel_id = channel }) counterparty order version hop)

  -- `OnChanOpenInit`
  unfoldable pub on_chan_open_init :
      Context → Bytes → List Bytes → Bytes → Bytes → Endpoint → Bytes → M c Bytes
  unfolding validate_channel_params contract_from_port_id init_version
  on_chan_open_init ctx order hops port channel counterparty version = do
    lift (validate_channel_params ck.parse_channel_sequence channel)
    addr ← owner port
    ch ← proposed order hops port channel counterparty version
    accepted ← on_open_channel k vm ctx addr (open_init ch)
    lift (init_version accepted version)

  -- `OnChanOpenTry`
  unfoldable pub on_chan_open_try :
      Context → Bytes → List Bytes → Bytes → Bytes → Endpoint → Bytes → M c Bytes
  unfolding validate_channel_params contract_from_port_id try_version
  on_chan_open_try ctx order hops port channel counterparty version = do
    lift (validate_channel_params ck.parse_channel_sequence channel)
    addr ← owner port
    ch ← proposed order hops port channel counterparty version
    accepted ← on_open_channel k vm ctx addr (open_try ch version)
    pure (try_version accepted version)

  -- The channel on record, with a changed counterparty where the handshake says so.
  abbrev pub known_channel : Context → Bytes → Bytes → (Channel → Channel) → M c WasmChannel
  known_channel ctx port channel change = do
    found ← ck.get_channel ctx port channel
    info ← lift (found_channel found)
    version ← ck.get_app_version ctx port channel
    app_version ← lift (found_version version)
    to_wasm_vm_channel port channel (change info) app_version

  abbrev pub with_counterparty : Bytes → Channel → Channel
  with_counterparty channel info = record info {
    counterparty = record info.counterparty { channel_id = channel };
  }

  abbrev pub unchanged : Channel → Channel
  unchanged info = info

  -- `OnChanOpenAck`
  unfoldable pub on_chan_open_ack :
      Handler c → Context → Bytes → Bytes → Bytes → Bytes → M c (Unit {0})
  unfolding to_wasm_vm_channel contract_from_port_id
  on_chan_open_ack handle ctx port channel counterparty_channel counterparty_version = do
    addr ← owner port
    ch ← known_channel ctx port channel (with_counterparty counterparty_channel)
    on_connect_channel k vm handle ctx addr (open_ack ch counterparty_version)

  -- `OnChanOpenConfirm`
  unfoldable pub on_chan_open_confirm : Handler c → Context → Bytes → Bytes → M c (Unit {0})
  unfolding to_wasm_vm_channel contract_from_port_id
  on_chan_open_confirm handle ctx port channel = do
    addr ← owner port
    ch ← known_channel ctx port channel unchanged
    on_connect_channel k vm handle ctx addr (open_confirm ch)

  -- `OnChanCloseInit`
  unfoldable pub on_chan_close_init : Handler c → Context → Bytes → Bytes → M c (Unit {0})
  unfolding to_wasm_vm_channel contract_from_port_id
  on_chan_close_init handle ctx port channel = do
    addr ← owner port
    ch ← known_channel ctx port channel unchanged
    on_close_channel k vm handle ctx addr (close_init ch)

  -- `OnChanCloseConfirm`
  unfoldable pub on_chan_close_confirm : Handler c → Context → Bytes → Bytes → M c (Unit {0})
  unfolding to_wasm_vm_channel contract_from_port_id
  on_chan_close_confirm handle ctx port channel = do
    addr ← owner port
    ch ← known_channel ctx port channel unchanged
    on_close_channel k vm handle ctx addr (close_confirm ch)
