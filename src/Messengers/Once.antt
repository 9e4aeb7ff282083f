-- ===== src/Messengers/Once.antt =====
-- A packet that waits is acknowledged once.
use independency_daemon.Base.{
  ℕ, Option, ◌≡◌, refl, sym, ap, ◌∙◌, Bool, false, none, some, Bytes, bytes_eq, bytes_eq_refl,
  length, ◌==◌, if◌then◌else◌, Outcome, ok, err, panic, invalid, not_found,
  unsupported_for_contract, empty,
}
use independency_daemon.Chain.{Chain, State, Context, M, fail_if, wrapping, wrap_end, ◌>>◌, pure}
use independency_daemon.Chain.Actions.{after_call_inverts, fail_if_inverts}
use independency_daemon.Dispatch.{CosmosMsg, MsgResult}
use independency_daemon.Keeper.{Codec}
use independency_daemon.Keeper.Packets.{
  Packet, async_ack_key, packet_of, load_async_ack_packet, delete_async_ack_packet,
}
use independency_daemon.Keeper.Packets.Waiting.{IsPacketId, async_ack_key_ne}
use independency_daemon.Messengers.{Reading, write_acknowledgement, IbcMsg}
use independency_daemon.Messengers.Ibc.{
  Ics4, must_wait, waiting, respond, acknowledge, dispatch_ibc, ibc_raw_packet_handler,
}

must_wait_inverts : (o : Outcome Packet) (p : Packet) → must_wait o ≡ ok p → o ≡ ok p
must_wait_inverts (ok q) p h = cc
must_wait_inverts (err e) p h = cc
must_wait_inverts (panic e) p h = cc

wrap_end_keeps : {c : Chain} {A : Type 0} (r : Outcome A × State c) → (wrap_end r).1 ≡ r.1
wrap_end_keeps (ok a, s) = refl
wrap_end_keeps (err e, s) = refl
wrap_end_keeps (panic p, s) = refl

module _ {c : Chain} (rd : Reading) (ics4 : Ics4 c) (codec : Codec Packet) where
  abbrev pub Waits : Bytes → Bytes → ℕ → Packet → State c → Type 0
  Waits port channel sequence p s = (load_async_ack_packet codec port channel sequence s).0 ≡ ok p

  -- What a successful acknowledgement has done.
  abbrev pub Acknowledged : Bytes → Bytes → ℕ → State c → State c → Type 0
  Acknowledged port channel sequence s s' =
      ((p : Packet) × Waits port channel sequence p s)
      × ((load_async_ack_packet codec port channel sequence s').0 ≡ err not_found)
      × ((q d : Bytes) (m : ℕ)
          → IsPacketId q d m
          → ((port ≡ q) × (channel ≡ d) × (sequence ≡ m) → ⊥)
          → (load_async_ack_packet codec q d m s').0 ≡ (load_async_ack_packet codec q d m s).0)

  acknowledge-Acknowledged :
      (ctx : Context) (port channel : Bytes) (sequence : ℕ) (ack : Bytes) (result : MsgResult)
      (s s' : State c)
      → IsPacketId port channel sequence
      → acknowledge rd ics4 codec ctx port channel sequence ack s ≡ (ok result, s')
      → Acknowledged port channel sequence s s'
  unfolding acknowledge load_async_ack_packet delete_async_ack_packet
  acknowledge-Acknowledged ctx port channel sequence ack result s s' valid h =
      let key = async_ack_key port channel sequence in
      let finish : M c MsgResult =
        delete_async_ack_packet port channel sequence >> pure (respond ics4.ack_response) in
      let (p, found, h2) =
        after_call_inverts (λ (packet : Packet). wrapping (ics4.write_ack ctx packet ack) >> finish)
          (waiting rd ics4 codec port channel sequence s) result s' h in
      let written : State c = (ics4.write_ack ctx p ack s).1 in
      let (u, sent_ack, h3) =
        after_call_inverts (λ (v : Unit {0}). finish) (wrap_end (ics4.write_ack ctx p ack s)) result
          s' h2 in
      let stored : s'.store ≡ c.delete written.store key =
        ap (λ (r : Outcome MsgResult × State c). r.1.store) (sym h3)
        ∙ ap (λ (t : State c). c.delete t.store key)
            (wrap_end_keeps (ics4.write_ack ctx p ack s)) in
      let after : (k : Bytes)
          → c.get s'.store k ≡ (if bytes_eq key k then none else c.get s.store k) =
        λ k.
          ap (λ (st : c.Store). c.get st k) stored
          ∙ c.get-delete written.store key k
          ∙ ap (λ (o : Option Bytes). if bytes_eq key k then none else o)
              (ics4.write_ack-keeps ctx p ack s k) in
      (
        (p, must_wait_inverts _ p found),
        ap (packet_of codec) (
            after key
            ∙ ap (λ (b : Bool). if b then none else c.get s.store key) (bytes_eq_refl key)),
        λ q d m valid' other. ap (packet_of codec) (
            after (async_ack_key q d m)
            ∙ ap (λ (b : Bool). if b then none else c.get s.store (async_ack_key q d m))
                (async_ack_key_ne port q channel d sequence m valid valid' other)),
      )

  refused :
      (ctx : Context) (port channel : Bytes) (sequence : ℕ) (ack : Bytes) (t : State c)
      → (length port == 0) ≡ false
      → (length channel == 0) ≡ false
      → (load_async_ack_packet codec port channel sequence t).0 ≡ err not_found
      → dispatch_ibc rd ics4 codec ctx port (some (write_acknowledgement channel sequence ack)) t
        ≡ (err invalid, t)
  unfolding dispatch_ibc acknowledge
  refused ctx port channel sequence ack t p d gone = rw (p, d, gone) refl

  -- An IBC message that acknowledges a packet, where it succeeds, was sent for a packet that waits.
  -- The packet waits no more, the other packets still do, and any later message to acknowledge the
  -- packet, which finds it as this one left it, is refused as invalid and changes nothing.
  pub ibc_raw_packet_handler-Acknowledged :
      (ctx : Context) (addr port channel : Bytes) (sequence : ℕ) (ack : Bytes) (msg : CosmosMsg)
      (result : MsgResult) (s s' : State c)
      → IsPacketId port channel sequence
      → rd.ibc msg ≡ some (write_acknowledgement channel sequence ack)
      → ibc_raw_packet_handler rd ics4 codec ctx addr port msg s ≡ (ok result, s')
      → Acknowledged port channel sequence s s'
        × ((ctx' : Context) (addr' ack' : Bytes) (msg' : CosmosMsg) (t : State c)
            → rd.ibc msg' ≡ some (write_acknowledgement channel sequence ack')
            → c.get t.store (async_ack_key port channel sequence)
              ≡ c.get s'.store (async_ack_key port channel sequence)
            → ibc_raw_packet_handler rd ics4 codec ctx' addr' port msg' t ≡ (err invalid, t))
  unfolding ibc_raw_packet_handler dispatch_ibc load_async_ack_packet acknowledge
  ibc_raw_packet_handler-Acknowledged ctx addr port channel sequence ack msg result s s' valid is
        h =
      let last = acknowledge rd ics4 codec ctx port channel sequence ack in
      let later : M c MsgResult = fail_if (length channel == 0) empty >> last in
      let h1 : (fail_if (length port == 0) unsupported_for_contract >> later) s ≡ (ok result, s') =
        ap (λ (m : Option IbcMsg). dispatch_ibc rd ics4 codec ctx port m s) (sym is) ∙ h in
      let (u, e1, h2) =
        after_call_inverts (λ (v : Unit {0}). later)
          (fail_if (length port == 0) unsupported_for_contract s) result s' h1 in
      let (has_port, same1) = fail_if_inverts (length port == 0) unsupported_for_contract s u e1 in
      let (v, e2, h3) =
        after_call_inverts (λ (w : Unit {0}). last) (fail_if (length channel == 0) empty s) result
          s' (ap later (sym same1) ∙ h2) in
      let (has_channel, same2) = fail_if_inverts (length channel == 0) empty s v e2 in
      let done =
        acknowledge-Acknowledged ctx port channel sequence ack result s s' valid
          (ap last (sym same2) ∙ h3) in
      (
        done,
        λ ctx' addr' ack' msg' t is' same.
            ap (λ (m : Option IbcMsg). dispatch_ibc rd ics4 codec ctx' port m t) is'
            ∙ refused ctx' port channel sequence ack' t has_port has_channel
                (ap (packet_of codec) same ∙ done.1),
      )
