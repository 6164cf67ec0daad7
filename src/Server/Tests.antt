-- ===== src/Server/Tests.antt =====
-- src/bin/server.rs: the unit tests, as actions that end well when every assertion holds.
use rdma_prototype.Base.{Bool, not, if◌then◌else◌}
use rdma_prototype.State.{Event, connected, received, sent, peer_closed}
use rdma_prototype.State.Server.{Exchange, ack}
use rdma_prototype.Machine.{Exec, ◌>>◌}
use rdma_prototype.Machine.Asserting.{assert, unwrapped, refused, changed}
use rdma_prototype.Server.Exchange.{on_event, complete, hello_text, ack_text, is_reply}

-- `exchange.on_event(event).unwrap()` and `assert!(exchange.on_event(event).is_err())`
abbrev pub feed : Event → Exec Exchange Unit
feed event = unwrapped (λ s. on_event s event)

abbrev pub refuses : Event → Exec Exchange Unit
refuses event = refused (λ s. on_event s event)

-- One round of the loop of `ack_and_tx_completion_can_arrive_in_either_order`.
unfoldable pub either_order : Bool → Exec Exchange Unit
unfolding on_event complete
either_order ack_first = do
  feed (received hello_text)
  feed connected
  assert (λ s. is_reply s.phase)
  changed (λ s. record s { phase = ack })
  feed (if ack_first then received ack_text else sent)
  assert (λ s. not (complete s))
  feed (if ack_first then sent else received ack_text)
  assert complete

-- `invalid_message_or_disconnect_does_not_complete_exchange`
unfoldable pub invalid_message : Exec Exchange Unit
unfolding on_event complete
invalid_message = do
  refuses (received ack_text)
  feed peer_closed
  assert (λ s. s.peer_closed)
  assert (λ s. not (complete s))
