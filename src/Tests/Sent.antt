-- ===== src/Tests/Sent.antt =====
-- What the messengers send for a contract, on the chain in memory.
use independency_daemon.Base.{
  ℕ, ◌≡◌, refl, List, [], ◌∷◌, none, some, Bytes, bytes_eq, big_endian, All, length, ok, err,
  invalid, arith,
}
use independency_daemon.Chain.{State, Context, pure}
use independency_daemon.Dispatch.{CosmosMsg, MsgResult, MsgResponse}
use independency_daemon.Keeper.Packets.{
  async_ack_key, store_async_ack_packet, load_async_ack_packet, delete_async_ack_packet,
}
use independency_daemon.Messengers.{
  Router, Reading, write_acknowledgement, handle_sdk_message, sdk_message_handler, handle_each,
  only_signer,
}
use independency_daemon.Messengers.Signers.{InOwnName, sdk_message_handler-InOwnName}
use independency_daemon.Messengers.Ibc.{
  Ics4, ibc_raw_packet_handler, dispatch_ibc, acknowledge, respond,
}
use independency_daemon.Messengers.Once.{Acknowledged, ibc_raw_packet_handler-Acknowledged}
use independency_daemon.Tests.MemChain.{mem_chain, find}
use independency_daemon.Keys.{async_ack_prefix, async_packet_key}
use independency_daemon.Tests.Codecs.{read_all, put_all}
use independency_daemon.Tests.Messages.{ctx, bank_msg}
use independency_daemon.Tests.Rights.{alice}
use independency_daemon.Tests.Records.{packet, packet_codec}
use independency_daemon.Tests.Contracts.{fresh}

-- A message is its signer.
abbrev router : Router mem_chain
router = record {
  SdkMsg = Bytes;
  encode = λ _ addr port msg. pure (addr ∷ (addr ∷ []));
  validate = λ msg. ok tt;
  signers = λ msg. ok (msg ∷ []);
  handler = λ msg. some (λ _. pure (record { payload = msg; events = []; responses = [] }));
}

abbrev both_sent : MsgResult
both_sent = record { events = []; payloads = alice ∷ (alice ∷ []); responses = [] ∷ ([] ∷ []) }

own_name_run : (sdk_message_handler router ctx alice [] bank_msg fresh).0 ≡ ok both_sent
unfolding sdk_message_handler handle_each handle_sdk_message only_signer bytes_eq
own_name_run = refl

sdk_message_handler-InOwnName_example :
    (msgs : List Bytes) × ((router.encode ctx alice [] bank_msg fresh).0 ≡ ok msgs)
    × All (InOwnName router alice) msgs
    × (◌≡◌ {A = ℕ} 2 (length msgs))
    × (◌≡◌ {A = ℕ} 2 (length msgs))
sdk_message_handler-InOwnName_example =
    sdk_message_handler-InOwnName router ctx alice [] bank_msg both_sent fresh own_name_run

abbrev reading : Reading
reading = record {
  ibc = λ msg. some (write_acknowledgement (b'c' ∷ []) 4 msg.body);
  ibc2 = λ msg. none;
  burn = λ msg. none;
}

abbrev empty_answer : MsgResponse
empty_answer = record { type_url = []; value = [] }

abbrev ics4 : Ics4 mem_chain
ics4 = record {
  send = λ _ port channel timeout packet_. pure 1;
  write_ack = λ _ p ack. pure tt;
  send_response = λ n. empty_answer;
  ack_response = empty_answer;
  write_ack-keeps = λ _ p ack s k. refl;
}

abbrev waiting_state : State mem_chain
waiting_state = (store_async_ack_packet packet_codec packet fresh).1

abbrev after_ack : State mem_chain
after_ack = (delete_async_ack_packet (b'p' ∷ []) (b'c' ∷ []) 4 waiting_state).1

acknowledge_run :
    ibc_raw_packet_handler reading ics4 packet_codec ctx alice (b'p' ∷ []) bank_msg waiting_state
    ≡ (ok (respond empty_answer), after_ack)
unfolding ibc_raw_packet_handler dispatch_ibc acknowledge load_async_ack_packet
    store_async_ack_packet delete_async_ack_packet find bytes_eq async_ack_key async_ack_prefix
    async_packet_key big_endian read_all put_all
acknowledge_run = refl

ibc_raw_packet_handler-Acknowledged_example :
    Acknowledged reading ics4 packet_codec (b'p' ∷ []) (b'c' ∷ []) 4 waiting_state after_ack
    × ((ctx' : Context) (addr' ack' : Bytes) (msg' : CosmosMsg) (t : State mem_chain)
        → reading.ibc msg' ≡ some (write_acknowledgement (b'c' ∷ []) 4 ack')
        → find t.store (async_ack_key (b'p' ∷ []) (b'c' ∷ []) 4)
          ≡ find after_ack.store (async_ack_key (b'p' ∷ []) (b'c' ∷ []) 4)
        → ibc_raw_packet_handler reading ics4 packet_codec ctx' addr' (b'p' ∷ []) msg' t
          ≡ (err invalid, t))
ibc_raw_packet_handler-Acknowledged_example =
    ibc_raw_packet_handler-Acknowledged reading ics4 packet_codec ctx alice (b'p' ∷ []) (b'c' ∷ [])
      4 bank_msg.body bank_msg (respond empty_answer) waiting_state after_ack
      (omega arith, omega arith, omega arith) refl acknowledge_run
