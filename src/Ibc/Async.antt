-- ===== src/Ibc/Async.antt =====
-- How an arrived packet ends: it waits for its acknowledgement, or it is refused, or neither.
use independency_daemon.Base.{
  ◌<◌, ◌≡◌, refl, sym, ap, ◌∙◌, subst, Bool, false, List, [], ◌∷◌, ◌++◌, Option, none, some, Bytes,
  length, Outcome, ok, err, panic, ok_injective, if◌then◌else◌,
}
use independency_daemon.Chain.{Chain, State, Context, AbciEvent, lift}
use independency_daemon.Chain.Actions.{after_call_inverts}
use independency_daemon.Keeper.{
  Keeper, Codec, ContractInfo, VmResult, vm_failure, no_result, contract_error, response,
}
use independency_daemon.Keeper.Runtime.{Handler, handle_contract_response}
use independency_daemon.Keeper.Packets.{Packet, load_async_ack_packet, store_async_ack_packet}
use independency_daemon.Keeper.Packets.Waiting.{IsPacketId, store_async_ack_packet_lem}
use independency_daemon.Ibc.{IbcVm, contract_from_port_id, new_ibc_packet, packet_receive}
use independency_daemon.Ibc.Ports.{convert_packet-new_ibc_packet}
use independency_daemon.Ibc.Relay.{Ack, acknowledged, received, run_for, on_recv_packet}
use independency_daemon.Ibc.Delivery.{
  is_success, received_event, emit_received, settled, must_own, deliver, on_recv,
}

module _ {c : Chain} (k : Keeper c) (vm : IbcVm c) (codec : Codec Packet) where
  -- The packet is the one that waits under its id.
  abbrev pub WaitsAs : Packet → State c → Type 0
  WaitsAs packet s =
      (load_async_ack_packet codec packet.destination_port packet.destination_channel
        packet.sequence s).0
      ≡ ok packet

  abbrev pub IsStorable : Packet → Type 0
  IsStorable packet =
      (0 < length (codec.marshal packet))
      × IsPacketId packet.destination_port packet.destination_channel packet.sequence

  acknowledged-WaitsAs :
      (packet : Packet) (ack : Option Bytes) (s s' : State c)
      → IsStorable packet
      → acknowledged k vm codec (new_ibc_packet packet) ack s ≡ (ok none, s')
      → WaitsAs packet s'
  unfolding acknowledged
  acknowledged-WaitsAs packet none s s' (full, valid) h =
      let load : State c → Outcome Packet = λ t.
        (load_async_ack_packet codec packet.destination_port packet.destination_channel
          packet.sequence t).0 in
      ap (λ (q : Outcome (Option Ack) × State c). load q.1) (sym h)
      ∙ ap (λ (p : Packet). load (store_async_ack_packet codec p s).1)
          (convert_packet-new_ibc_packet packet)
      ∙ (store_async_ack_packet_lem codec packet s full valid).0
  acknowledged-WaitsAs packet (some bz) s s' storable h = cc

  received-WaitsAs :
      (handle : Handler c) (ctx : Context) (addr port : Bytes) (packet : Packet) (result : VmResult)
      (s s' : State c)
      → IsStorable packet
      → received k vm codec handle ctx addr port (new_ibc_packet packet) result s ≡ (ok none, s')
      → WaitsAs packet s'
  unfolding received
  received-WaitsAs handle ctx addr port packet vm_failure s s' storable h = cc
  received-WaitsAs handle ctx addr port packet no_result s s' storable h = cc
  received-WaitsAs handle ctx addr port packet (contract_error text) s s' storable h = cc
  received-WaitsAs handle ctx addr port packet (response r) s s' storable h =
      let (ack, e, h1) =
        after_call_inverts (acknowledged k vm codec (new_ibc_packet packet))
          (handle_contract_response k handle ctx addr port r s) none s' h in
      acknowledged-WaitsAs packet ack (handle_contract_response k handle ctx addr port r s).1 s'
        storable h1

  on_recv_packet-WaitsAs :
      (handle : Handler c) (ctx : Context) (addr : Bytes) (packet : Packet) (relayer : Bytes)
      (s s' : State c)
      → IsStorable packet
      → on_recv_packet k vm codec handle ctx addr (new_ibc_packet packet) relayer s ≡ (ok none, s')
      → WaitsAs packet s'
  unfolding on_recv_packet
  on_recv_packet-WaitsAs handle ctx addr packet relayer s s' storable h =
      let run = run_for k vm ctx addr (packet_receive (new_ibc_packet packet) relayer) s in
      let (p, e, h1) =
        after_call_inverts
          (λ (q : ContractInfo × VmResult).
            received k vm codec handle ctx addr q.0.ibc_port_id (new_ibc_packet packet) q.1)
          run none s' h in
      received-WaitsAs handle ctx addr p.0.ibc_port_id packet p.1 run.1 s' storable h1

  settled_inverts :
      (addr : Bytes) (before : List AbciEvent) (r : Outcome (Option Ack) × State c) (s' : State c)
      → settled k vm codec addr before r ≡ (ok none, s')
      → (s1 : State c) × (r ≡ (ok none, s1)) × (s'.store ≡ s1.store)
  unfolding emit_received
  settled_inverts addr before (ok none, s) s' h =
      (s, refl, ap (λ (q : Outcome (Option Ack) × State c). q.1.store) (sym h))
  settled_inverts addr before (ok (some ack), s) s' h = cc
  settled_inverts addr before (err e, s) s' h = cc
  settled_inverts addr before (panic p, s) s' h = cc

  -- A packet that arrives and is not acknowledged at once waits under its port, channel and number,
  -- just as it arrived, where its encoding is not empty and its id is valid.
  pub on_recv-WaitsAs :
      (handle : Handler c) (ctx : Context) (packet : Packet) (relayer : Bytes) (s s' : State c)
      → IsStorable packet
      → on_recv k vm codec handle ctx packet relayer s ≡ (ok none, s')
      → WaitsAs packet s'
  unfolding on_recv deliver load_async_ack_packet
  on_recv-WaitsAs handle ctx packet relayer s s' storable h =
      let (addr, e, h1) =
        after_call_inverts (deliver k vm codec handle ctx packet relayer)
          (lift (must_own (contract_from_port_id k.bech packet.destination_port)) s) none s' h in
      let start : State c = record s { events = [] } in
      let (s1, ended, same) =
        settled_inverts addr s.events
          (on_recv_packet k vm codec handle ctx addr (new_ibc_packet packet)
            (k.bech.to_bech32 relayer) start)
          s' h1 in
      subst (λ (st : c.Store). WaitsAs packet (record s1 { store = st })) (sym same)
        (on_recv_packet-WaitsAs handle ctx addr packet (k.bech.to_bech32 relayer) start s1 storable
          ended)

  refused_inverts :
      (addr : Bytes) (before : List AbciEvent) (r : Outcome (Option Ack) × State c) (ack : Ack)
      (s' : State c)
      → settled k vm codec addr before r ≡ (ok (some ack), s')
      → is_success (some ack) ≡ false
      → (text : Option Bytes) × (s'.events
          ≡ before ++ (received_event (k.bech.to_bech32 addr) false text ∷ []))
  unfolding emit_received
  refused_inverts addr before (ok none, s) ack s' h refused = cc
  refused_inverts addr before (ok (some given), s) ack s' h refused =
      let same : some given ≡ some ack =
        ok_injective _ _ (ap (λ (q : Outcome (Option Ack) × State c). q.0) h) in
      let failed : is_success (some given) ≡ false = ap is_success same ∙ refused in
      (
        none,
        ap (λ (q : Outcome (Option Ack) × State c). q.1.events) (sym h)
            ∙ ap
                (λ (b : Bool).
                  (if b then before ++ s.events else before)
                  ++ (received_event (k.bech.to_bech32 addr) b none ∷ []))
                failed,
      )
  refused_inverts addr before (err e, s) ack s' h refused =
      (some (k.error_texts.text e), ap (λ (q : Outcome (Option Ack) × State c). q.1.events) (sym h))
  refused_inverts addr before (panic p, s) ack s' h refused = cc

  -- A refused packet, one with an acknowledgement that is not a success, leaves no events of the
  -- contract: after it there is one event more, which tells of the failure.
  pub on_recv_refused :
      (handle : Handler c) (ctx : Context) (packet : Packet) (relayer : Bytes) (ack : Ack)
      (s s' : State c)
      → on_recv k vm codec handle ctx packet relayer s ≡ (ok (some ack), s')
      → is_success (some ack) ≡ false
      → (addr : Bytes) × (text : Option Bytes) × (must_own
            (contract_from_port_id k.bech packet.destination_port)
          ≡ ok addr)
        × (s'.events ≡ s.events ++ (received_event (k.bech.to_bech32 addr) false text ∷ []))
  unfolding on_recv deliver
  on_recv_refused handle ctx packet relayer ack s s' h refused =
      let (addr, e, h1) =
        after_call_inverts (deliver k vm codec handle ctx packet relayer)
          (lift (must_own (contract_from_port_id k.bech packet.destination_port)) s) (some ack) s'
          h in
      let (text, left) =
        refused_inverts addr s.events
          (on_recv_packet k vm codec handle ctx addr (new_ibc_packet packet)
            (k.bech.to_bech32 relayer) (record s { events = [] }))
          ack s' h1 refused in
      (addr, text, e, left)
