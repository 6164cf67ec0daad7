-- ===== src/Server/Replies.antt =====
-- src/bin/server.rs: the sends that `serve` submits, and the replies of its state machine.
use rdma_prototype.Base.{
  ◌≡◌, refl, ◌∙◌, ℕ, suc, ◌+◌, true, ◌&&◌, List, [], ◌∷◌, ◌++◌, append-nil, append_assoc, sym,
  arith, is_zero, if◌then◌else◌,
}
use rdma_prototype.State.{Event}
use rdma_prototype.State.Server.{Exchange}
use rdma_prototype.Outcome.{Outcome, ok, err, panic, unfinished, and_then}
use rdma_prototype.Events.{for_events}
use rdma_prototype.Ffi.{post_send}
use rdma_prototype.Machine.{Machine, At, Env, Call, called}
use rdma_prototype.Machine.Laws.{Steps}
use rdma_prototype.Machine.Logic.{Leaves}
use rdma_prototype.Transport.Connection.{Connection, post_recv, send}
use rdma_prototype.Server.Exchange.{on_event, complete, hello_text, ack_text}
use rdma_prototype.Server.Conversation.{Item, heard, replied, items_of, Run, event, conversation}
use rdma_prototype.Server.Loop.{on_events, receive_ready}

-- How many replies a conversation has.
abbrev pub replies : List Item → ℕ
replies [] = 0
replies (heard text ∷ items) = replies items
replies (replied ∷ items) = suc (replies items)

pub replies_add : (xs ys : List Item) → replies (xs ++ ys) ≡ replies xs + replies ys
replies_add [] ys = ground arith
replies_add (heard text ∷ xs) ys = replies_add xs ys
replies_add (replied ∷ xs) ys = grind (arith, replies_add xs ys)

replies-items_of : (e : Event) → replies (items_of e) ≡ 0
replies-items_of e = ground arith

-- What the events of a poll say.
abbrev pub texts : List Event → List Item
texts [] = []
texts (e ∷ events) = items_of e ++ texts events

pub replies-texts : (events : List Event) → replies (texts events) ≡ 0
replies-texts [] = refl
replies-texts (e ∷ events) =
    replies_add (items_of e) (texts events)
    ∙ omega (arith, replies-items_of e, replies-texts events)

-- The events of a poll extend the run by what they say.
pub on_events-Run :
    (events : List Event) (state next : Exchange) (items : List Item)
    → Run state items
    → on_events state events ≡ ok next
    → Run next (items ++ texts events)
unfolding on_events for_events
on_events-Run [] state next items run h = rw (append-nil items) (ground (arith, run))
on_events-Run (e ∷ events) state next items run h =
    go (λ middle. on_events-Run events middle next (items ++ items_of e)) (on_event state e) refl h
  where
    go :
        ((middle : Exchange)
          → Run middle (items ++ items_of e)
          → on_events middle events ≡ ok next
          → Run next ((items ++ items_of e) ++ texts events))
        → (r : Outcome Exchange) → on_event state e ≡ r
        → and_then r (λ middle. on_events middle events) ≡ ok next
        → Run next (items ++ (items_of e ++ texts events))
    go longer_run (ok middle) one rest =
        rw (sym (append_assoc items (items_of e) (texts events)))
          (longer_run middle (event middle e one run) rest)
    go longer_run (err x) one rest = ground arith
    go longer_run panic one rest = ground arith
    go longer_run unfinished one rest = ground arith

-- The conversation of an exchange that is complete.
pub complete-conversation :
    (s : Exchange)
    → complete s ≡ true
    → conversation s.phase ≡ heard hello_text ∷ replied ∷ heard ack_text ∷ []
unfolding complete
complete-conversation s h = ground arith

module _ (M : Machine) where
  -- A posted send that the code takes for accepted.
  abbrev pub accepts : Call → ℕ
  accepts (called (post_send ep op mr len buf) code) =
      if is_zero code && is_zero (M.error_is_again code) then 1 else 0
  accepts call = 0

  abbrev pub accepted_sends : List Call → ℕ
  accepted_sends [] = 0
  accepted_sends (call ∷ trace) = accepts call + accepted_sends trace

  abbrev pub Same : Env M → Env M → Type 0
  Same e f = accepted_sends f.trace ≡ accepted_sends e.trace

  pub Same-Steps : Steps M Same
  Same-Steps = record {
    here = λ e. refl;
    then = λ p q. q ∙ p;
    eq_poll = λ q e. omega arith;
    cq_poll = λ q e. omega arith;
  }

  pub post_recv-Same : (s : At M Connection) → Same s.env (post_recv M s).1.env
  unfolding post_recv
  post_recv-Same s = ground arith

  pub receive_ready-Same : (s : At M Connection) → Same s.env (receive_ready M s).1.env
  unfolding receive_ready
  receive_ready-Same s = ground (arith, post_recv-Same s)

  -- A send counts if and only if it returns `true`.
  pub send-accepted :
      (text : List ℕ) (s : At M Connection)
      → Leaves
          (λ yes t.
            accepted_sends t.env.trace ≡ (if yes then 1 else 0) + accepted_sends s.env.trace)
          (λ t. Same s.env t.env)
          (send M text s)
  unfolding send
  send-accepted text s = ground arith
