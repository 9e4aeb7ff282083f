-- ===== src/Tests/Records.antt =====
-- What is on record of a contract that was created and then migrated, on the chain in memory.
use independency_daemon.Base.{
  ℕ, not_found, err, arith, Bytes, ◌≡◌, refl, [], ◌∷◌, ok, bytes_eq, big_endian,
}
use independency_daemon.Chain.{State}
use independency_daemon.Keeper.{
  Codec, must_get_last_history_entry, add_to_code_index, add_to_creator_index,
  append_to_contract_history, must_store_contract_info,
}
use independency_daemon.Keeper.Contracts.{persist_instance, initial_history}
use independency_daemon.Keeper.Packets.{
  Packet, load_async_ack_packet, store_async_ack_packet, delete_async_ack_packet,
}
use independency_daemon.Keeper.Packets.Waiting.{IsPacketId, store_async_ack_packet_lem}
use independency_daemon.Tests.MemChain.{mem_chain, entries, strip, find}
use independency_daemon.Tests.Codecs.{read_all, put_all, codec, as_format, both, bytes, number}
use independency_daemon.Keys.{
  history_prefix, contract_address_key, history_key, creator_index_key, code_index_key,
}
use independency_daemon.Tests.Rights.{alice}
use independency_daemon.Tests.Contracts.{keeper, fresh, contract, info}

abbrev instantiated : State mem_chain
instantiated = (persist_instance keeper alice contract info (7 ∷ []) fresh).1

last_entry :
    (must_get_last_history_entry keeper contract instantiated).0
    ≡ ok (initial_history info (7 ∷ []))
unfolding must_get_last_history_entry persist_instance entries add_to_code_index
    add_to_creator_index append_to_contract_history must_store_contract_info strip history_prefix
    contract_address_key history_key find bytes_eq big_endian creator_index_key code_index_key
    read_all put_all
last_entry = refl

abbrev pub packet_codec : Codec Packet
packet_codec = codec (
    as_format
      (both (both (both bytes bytes) (both bytes bytes))
        (both (both number bytes) (both (both number number) number)))
      (λ p. (
        ((p.destination_port, p.destination_channel), (p.source_port, p.source_channel)),
        ((p.sequence, p.payload), (p.timeout_height, p.timeout_timestamp)),
      ))
      (λ p. record {
        destination_port = p.0.0.0;
        destination_channel = p.0.0.1;
        source_port = p.0.1.0;
        source_channel = p.0.1.1;
        sequence = p.1.0.0;
        payload = p.1.0.1;
        timeout_height = p.1.1.0;
        timeout_timestamp = p.1.1.1;
      })
      (λ p. refl))

abbrev pub packet : Packet
packet = record {
  destination_port = b'p' ∷ [];
  destination_channel = b'c' ∷ [];
  sequence = 4;
  source_port = [];
  source_channel = [];
  payload = [];
  timeout_height = (0, 0);
  timeout_timestamp = 0;
}

store_async_ack_packet_lem_example :
    let s' = (store_async_ack_packet packet_codec packet fresh).1 in
    ((load_async_ack_packet packet_codec (b'p' ∷ []) (b'c' ∷ []) 4 s').0 ≡ ok packet)
    × ((q d : Bytes) (m : ℕ)
        → IsPacketId q d m
        → (((b'p' ∷ []) ≡ q) × ((b'c' ∷ []) ≡ d) × (◌≡◌ {A = ℕ} 4 m) → ⊥)
        → (load_async_ack_packet packet_codec q d m s').0
          ≡ (load_async_ack_packet packet_codec q d m fresh).0)
    × ((load_async_ack_packet packet_codec
          (b'p' ∷ [])
          (b'c' ∷ [])
          4
          (delete_async_ack_packet (b'p' ∷ []) (b'c' ∷ []) 4 s').1).0
        ≡ err not_found)
store_async_ack_packet_lem_example =
    store_async_ack_packet_lem packet_codec packet fresh (omega arith)
      (omega arith, omega arith, omega arith)
