-- ===== src/Client/Tests.antt =====
-- src/bin/clients.rs: the unit tests, as actions that end well when every assertion holds.
use rdma_prototype.Base.{
  ℕ, Bool, true, false, not, ◌&&◌, Option, none, some, List, [], ◌∷◌, bytes_eq, if◌then◌else◌,
}
use rdma_prototype.State.{Event, connected, received, sent}
use rdma_prototype.State.Client.{Exchange, Message, hello, ack, bytes, world, default}
use rdma_prototype.Outcome.{Outcome, err, panic, Error, client_timeout}
use rdma_prototype.Machine.{Exec, ◌>>◌}
use rdma_prototype.Machine.Asserting.{assert, unwrapped, refused, changed}
use rdma_prototype.Client.Exchange.{on_event, next_message, posted, complete}
use rdma_prototype.Client.Loop.{exchange}
use rdma_prototype.Client.Fake.{Timed, timed_io, timed_clock, broken_io}

-- `state.on_event(event).unwrap()` and `assert!(state.on_event(event).is_err())`
abbrev pub feed : Event → Exec Exchange Unit
feed event = unwrapped (λ s. on_event s event)

abbrev pub refuses : Event → Exec Exchange Unit
refuses event = refused (λ s. on_event s event)

abbrev pub same_message : Option Message → Option Message → Bool
same_message none none = true
same_message (some hello) (some hello) = true
same_message (some ack) (some ack) = true
same_message _ _ = false

-- `assert_eq!(state.next_message(), expected)`
abbrev pub next_is : Option Message → Exec Exchange Unit
next_is expected = assert (λ s. same_message (next_message s) expected)

-- One round of the loop of `reply_and_hello_completion_can_arrive_in_either_order`.
unfoldable pub either_order : Bool → Exec Exchange Unit
unfolding on_event next_message posted complete
either_order reply_first = do
  next_is none
  feed connected
  next_is (some hello)
  changed (posted hello)
  feed (if reply_first then received world else sent)
  feed (if reply_first then sent else received world)
  next_is (some ack)
  changed (posted ack)
  assert (λ s. not (complete s))
  feed sent
  assert complete

-- A state that has posted its hello.
abbrev pub hello_posted : Exchange
hello_posted = record default { hello_posted = true }

-- `invalid_or_duplicate_reply_is_rejected`: one round of its loop, and what follows the loop.
unfoldable pub invalid_reply : List ℕ → Exec Exchange Unit
unfolding on_event
invalid_reply text = refuses (received text)

unfoldable pub duplicate_reply : Exec Exchange Unit
unfolding on_event
duplicate_reply = do feed (received world); refuses (received world)

abbrev pub same_texts : List (List ℕ) → List (List ℕ) → Bool
same_texts [] [] = true
same_texts (x ∷ xs) (y ∷ ys) = bytes_eq x y && same_texts xs ys
same_texts _ _ = false

abbrev pub is_timeout : Error → Bool
is_timeout (client_timeout state) = true
is_timeout _ = false

-- The start of the tests of the loop: what the transport answers, and a clock at 0.
abbrev pub scripted : List (List Event) → Bool → Timed
scripted events again = record {
  io = record { events = events; attempts = []; again = again };
  time = 0;
}

-- `event_loop_retries_eagain_and_drains_ack_after_shutdown`; the loops of the tests end within 12
-- rounds.
unfoldable pub retries_eagain : Exec Timed Unit
unfolding exchange
retries_eagain = do
  exchange timed_io timed_clock 12 1000000000
  assert (λ s. same_texts s.io.attempts (bytes hello ∷ bytes hello ∷ bytes ack ∷ []))

abbrev pub is_nothing : List (List ℕ) → Bool
is_nothing [] = true
is_nothing (x ∷ xs) = false

-- One round of the loop of `stalled_or_closed_peer_reaches_deadline_without_sending`.
unfoldable pub reaches_deadline : Exec Timed Unit
unfolding exchange
reaches_deadline s =
    let (r, t) = exchange timed_io timed_clock 12 5000000 s in
    elim r [ err e ↦ assert (λ t. is_timeout e && is_nothing t.io.attempts) t | _ ↦ (panic, t) ]

-- `transport_error_is_not_reported_as_timeout_or_success` asserts the result of this call.
unfoldable pub broken_exchange : Outcome Unit
unfolding exchange
broken_exchange = (exchange broken_io timed_clock 12 1000000000 (scripted [] false)).0
