-- ===== src/Messengers/Burn.antt =====
-- x/wasm/keeper/handler_plugin.go: the messenger that burns coins, and the default chain of messengers.
use independency_daemon.Base.{[], ◌∷◌, Option, none, some, Bytes, Outcome, empty, unknown_msg}
use independency_daemon.Chain.{Chain, M, ◌>>=◌, ◌>>◌, pure, fail, lift, fail_if, wrapping}
use independency_daemon.Dispatch.{MsgResult, Messenger}
use independency_daemon.Keeper.{Codec, Coins, is_zero}
use independency_daemon.Keeper.Packets.{Packet}
use independency_daemon.Messengers.{
  Reading, sent, Router, message_handler_chain, sdk_message_handler,
}
use independency_daemon.Messengers.Ibc.{
  Ics4, ChannelKeeper2, ibc_raw_packet_handler, ibc2_raw_packet_handler,
}

-- `types.Burner`, for the module's account.
pub record Burner (c : Chain) : Type 0 where
  pub send_to_module : Bytes → Coins → M c (Unit {0})
  pub burn_coins : Coins → M c (Unit {0})

module _ {c : Chain} (rd : Reading) (bank : Burner c) where
  unfoldable pub dispatch_burn : Bytes → Option (Outcome Coins) → M c MsgResult
  dispatch_burn addr none = fail unknown_msg
  dispatch_burn addr (some converted) = do
    coins ← lift converted
    fail_if (is_zero coins) empty
    wrapping (bank.send_to_module addr coins)
    wrapping (bank.burn_coins coins)
    pure (sent [] [])

  -- `NewBurnCoinMessageHandler`
  unfoldable pub burn_coin_message_handler : Messenger c
  unfolding dispatch_burn
  burn_coin_message_handler ctx addr port msg = dispatch_burn addr (rd.burn msg)

-- `NewDefaultMessageHandler`, of its parts.
unfoldable pub default_message_handler :
    {c : Chain}
    → Router c
    → Reading
    → Ics4 c
    → Codec Packet
    → ChannelKeeper2 c
    → (Bytes → Bytes)
    → Burner c
    → Messenger c
unfolding message_handler_chain
default_message_handler r rd ics4 codec channels port_of bank = message_handler_chain (
    sdk_message_handler r
    ∷ ibc_raw_packet_handler rd ics4 codec
    ∷ ibc2_raw_packet_handler rd channels port_of
    ∷ burn_coin_message_handler rd bank
    ∷ [])
