-- ===== src/Examples/Transport.antt =====
-- The transport's theorems on the bench.
use rdma_prototype.Base.{◌≡◌, refl}
use rdma_prototype.State.Client.{world}
use rdma_prototype.Outcome.{ok}
use rdma_prototype.Transport.Handle.Plan.{Ran}
use rdma_prototype.Transport.Connection.{post_recv, send, poll}
use rdma_prototype.Transport.Connection.Close.{close, drop}
use rdma_prototype.Transport.Connection.Dropping.{
  IsCleared, close-IsCleared, drop-eq-close, close-close,
}
use rdma_prototype.Transport.Connection.Post.{PostsRecv, post_recv-PostsRecv, Sends, send-Sends}
use rdma_prototype.Transport.Connection.Polling.{Polls, poll-Polls}
use rdma_prototype.Transport.Connection.Teardown.{plan, after_shutdown, close-Ran}
use rdma_prototype.Examples.Bench.{bench, live, live_at}

close-Ran_example :
    Ran
      (plan live)
      (after_shutdown bench live_at)
      (close bench live_at).1.env.trace
      (close bench live_at).0
      (plan (close bench live_at).1.self)
close-Ran_example = close-Ran bench live_at

poll-Polls_example : Polls bench live_at (poll bench live_at)
poll-Polls_example = poll-Polls bench live_at

post_recv-PostsRecv_example : PostsRecv bench live_at (post_recv bench live_at)
post_recv-PostsRecv_example = post_recv-PostsRecv bench live_at

send-Sends_example : Sends bench world live_at (send bench world live_at)
send-Sends_example = send-Sends bench world live_at

close-IsCleared_example : IsCleared (close bench live_at).1.self
unfolding close
close-IsCleared_example = close-IsCleared bench live_at refl

close-close_example :
    let t = (close bench live_at).1 in
    ((close bench t).1.env.trace ≡ t.env.trace) × ((close bench t).0 ≡ ok tt)
unfolding close
close-close_example = close-close bench live_at refl

drop-eq-close_example : drop bench live live_at.env ≡ (close bench live_at).1.env
drop-eq-close_example = drop-eq-close bench live live_at.env
