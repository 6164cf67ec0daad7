-- ===== src/Client/Log.antt =====
-- What the client's loop submits, as a log beside the state of any implementation of `ClientIo`.
use mathlib.Core.Path.{subst}
use rdma_prototype.Base.{
  ℕ, ◌≡◌, sym, ap, ◌∙◌, ◌⊎◌, Bool, true, List, [], ◌∷◌, ◌++◌, some, arith, if◌then◌else◌,
}
use rdma_prototype.State.{Event}
use rdma_prototype.State.Client.{Exchange, Message, hello, ack, bytes}
use rdma_prototype.Outcome.{Outcome, ok, err, panic, unfinished}
use rdma_prototype.Machine.{Exec}
use rdma_prototype.Client.Exchange.{on_event, next_message, posted, complete}
use rdma_prototype.Client.Invariant.{IsValid, on_event-IsValid, posted-IsValid}
use rdma_prototype.Events.Order.{for_events-uncons, nil_ok}
use rdma_prototype.Client.Loop.{ClientIo, Clock, on_events}

-- A state beside the messages that were accepted so far, oldest first.
pub record Logged (S : Type 0) : Type 0 where
  pub inner : S
  pub sent : List (List ℕ)

module _ {S : Type 0} where
  abbrev pub lift : {A : Type 0} → Exec S A → Exec (Logged S) A
  lift m s = let (r, t) = m s.inner in (r, record s { inner = t })

  -- Note a message that was accepted.
  abbrev pub note : List ℕ → Outcome Bool → Logged S → Logged S
  note text (ok true) s = record s { sent = s.sent ++ text ∷ [] }
  note text _ s = s

  abbrev pub logged_io : ClientIo S → ClientIo (Logged S)
  logged_io io = record {
    poll = lift io.poll;
    send = λ text s. let (r, t) = lift (io.send text) s in (r, note text r t);
  }

  abbrev pub logged_clock : Clock S → Clock (Logged S)
  logged_clock clock = record { now = lift clock.now; sleep = lift clock.sleep }

-- What a state says was sent.
abbrev pub messages : Exchange → List (List ℕ)
messages s =
    (if s.hello_posted then bytes hello ∷ [] else [])
    ++ (if s.ack_posted then bytes ack ∷ [] else [])

-- The log is none, one or both of the two messages, in their order.
abbrev pub IsPrefix : List (List ℕ) → Type 0
IsPrefix l = (l ≡ []) ⊎ ((l ≡ bytes hello ∷ []) ⊎ (l ≡ bytes hello ∷ bytes ack ∷ []))

-- What the log holds when the loop has ended.
abbrev pub Ended : {A : Type 0} → Outcome A → List (List ℕ) → Type 0
Ended (ok _) l = l ≡ bytes hello ∷ bytes ack ∷ []
Ended (err e) l = IsPrefix l
Ended panic l = IsPrefix l
Ended unfinished l = IsPrefix l

-- The log is what the state says.
abbrev pub Agrees : Exchange → List (List ℕ) → Type 0
Agrees s l = IsValid s × (l ≡ messages s)

pub Agrees-IsPrefix : (s : Exchange) (l : List (List ℕ)) → Agrees s l → IsPrefix l
Agrees-IsPrefix s l h = ground arith

pub on_event-messages : (s t : Exchange) (e : Event) → on_event s e ≡ ok t → messages t ≡ messages s
unfolding on_event
on_event-messages s t e h = ground arith

pub on_events-Agrees :
    (s t : Exchange) (es : List Event) (l : List (List ℕ))
    → on_events s es ≡ ok t
    → Agrees s l
    → Agrees t l
unfolding on_events
on_events-Agrees s t [] l h a = subst (λ x. Agrees x l) (nil_ok on_event s t h) a
on_events-Agrees s t (e ∷ es) l h a =
    let (u, first, rest) = for_events-uncons on_event s t e es h in
    on_events-Agrees u t es l rest
      (on_event-IsValid s u e first a.0, a.1 ∙ sym (on_event-messages s u e first))

pub complete-Agrees :
    (s : Exchange) (l : List (List ℕ))
    → complete s ≡ true
    → Agrees s l
    → l ≡ bytes hello ∷ bytes ack ∷ []
unfolding complete
complete-Agrees s l h a = ground arith

pub messages-posted :
    (s : Exchange) (m : Message)
    → next_message s ≡ some m
    → IsValid s
    → messages (posted m s) ≡ messages s ++ bytes m ∷ []
unfolding next_message posted
messages-posted s hello h v = ground arith
messages-posted s ack h v = ground arith

pub posted-Agrees :
    (s : Exchange) (m : Message) (l : List (List ℕ))
    → next_message s ≡ some m
    → Agrees s l
    → Agrees (posted m s) (l ++ bytes m ∷ [])
posted-Agrees s m l h a =
    (posted-IsValid s m h a.0, rw (messages-posted s m h a.0) (ap (λ k. k ++ bytes m ∷ []) a.1))
