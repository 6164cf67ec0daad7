-- ===== src/Server/Serving.antt =====
-- src/bin/server.rs: what the server saw and did on its connection, call by call.
use rdma_prototype.Base.{◌≡◌, ◌+◌, Bool, true, false, List, [], ◌∷◌, ◌++◌, arith, ap, if◌then◌else◌}
use mathlib.Core.Path.{subst}
use rdma_prototype.State.{Event}
use rdma_prototype.State.Server.{Exchange, new, ack}
use rdma_prototype.Outcome.{ok}
use rdma_prototype.Machine.{Machine, At, in_env, do_now, do_sleep}
use rdma_prototype.Machine.Logic.{Leaves}
use rdma_prototype.Transport.Listener.{millisecond}
use rdma_prototype.Transport.Connection.{Connection, post_recv, send, poll}
use rdma_prototype.Transport.Connection.Worlds.{poll-Runs}
use rdma_prototype.Server.Exchange.{world_text}
use rdma_prototype.Server.Conversation.{Item, replied, Run, start, post}
use rdma_prototype.Server.Loop.{on_events, may_reply}
use rdma_prototype.Server.Replies.{
  replies, replies_add, texts, replies-texts, on_events-Run, accepted_sends, Same, Same-Steps,
  post_recv-Same, send-accepted,
}

-- The connection went from `s` to where it is by these calls of its methods, of the clock and of the
-- sleep, none of which failed. The exchange is what the state machine makes of the events that the
-- polls returned and of the sends that were accepted; the items are the messages that those polls
-- returned and those sends, in the order in which they came.
pub data Served (M : Machine) (s : At M Connection)
    : Exchange → List Item → At M Connection → Type 0 where
  begins : Served M s new [] s
  polled :
      {state : Exchange} {items : List Item} {t : At M Connection} (next : Exchange)
      (events : List Event) (u : At M Connection)
      → poll M t ≡ (ok events, u)
      → on_events state events ≡ ok next
      → Served M s state items t
      → Served M s next (items ++ texts events) u
  said :
      {state : Exchange} {items : List Item} {t : At M Connection} (u : At M Connection)
      → may_reply state ≡ true
      → send M world_text t ≡ (ok true, u)
      → Served M s state items t
      → Served M s (record state { phase = ack }) (items ++ replied ∷ []) u
  held :
      {state : Exchange} {items : List Item} {t : At M Connection} (u : At M Connection)
      → send M world_text t ≡ (ok false, u)
      → Served M s state items t
      → Served M s state items u
  readied :
      {state : Exchange} {items : List Item} {t : At M Connection} (done : Bool)
      (u : At M Connection)
      → post_recv M t ≡ (ok done, u)
      → Served M s state items t
      → Served M s state items u
  slept :
      {state : Exchange} {items : List Item} {t : At M Connection}
      → Served M s state items t
      → Served M s state items (in_env M (do_sleep M millisecond) t).1
  looked :
      {state : Exchange} {items : List Item} {t : At M Connection}
      → Served M s state items t
      → Served M s state items (in_env M (do_now M) t).1

module _ (M : Machine) where
  -- A send counts if and only if it was accepted.
  send-counted :
      (accepted : Bool) (t u : At M Connection)
      → send M world_text t ≡ (ok accepted, u)
      → accepted_sends M u.env.trace ≡ (if accepted then 1 else 0) + accepted_sends M t.env.trace
  send-counted accepted t u e =
      subst
        (Leaves
          (λ accepted u.
            accepted_sends M u.env.trace
            ≡ (if accepted then 1 else 0) + accepted_sends M t.env.trace)
          (λ u. Same M t.env u.env))
        e (send-accepted M world_text t)

module _ {M : Machine} {s : At M Connection} where
  -- It is a run of the server's state machine.
  pub Served-Run :
      {state : Exchange} {items : List Item} {t : At M Connection}
      → Served M s state items t
      → Run state items
  Served-Run begins = start
  Served-Run (polled {state} {items} next events u e h served) =
      on_events-Run events state next items (Served-Run served) h
  Served-Run (said u due e served) = post due (Served-Run served)
  Served-Run (held u e served) = Served-Run served
  Served-Run (readied done u e served) = Served-Run served
  Served-Run (slept served) = Served-Run served
  Served-Run (looked served) = Served-Run served

  -- The accepted sends of the trace are its replies.
  pub Served-accepted :
      {state : Exchange} {items : List Item} {t : At M Connection}
      → Served M s state items t
      → accepted_sends M t.env.trace ≡ replies items + accepted_sends M s.env.trace
  Served-accepted begins = omega arith
  Served-accepted (polled {items = items} {t = t} next events u e h served) = omega (
    arith,
    ap (λ r. accepted_sends M r.1.env.trace) e,
    poll-Runs (Same-Steps M) t,
    replies_add items (texts events),
    replies-texts events,
    Served-accepted served,
  )
  Served-accepted (said {items = items} {t = t} u due e served) =
      omega
        (arith, send-counted M true t u e, replies_add items (replied ∷ []), Served-accepted served)
  Served-accepted (held {t = t} u e served) =
      omega (arith, send-counted M false t u e, Served-accepted served)
  Served-accepted (readied {t = t} done u e served) = omega (
    arith,
    ap (λ r. accepted_sends M r.1.env.trace) e,
    post_recv-Same M t,
    Served-accepted served,
  )
  Served-accepted (slept served) = Served-accepted served
  Served-accepted (looked served) = Served-accepted served
