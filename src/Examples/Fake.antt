-- ===== src/Examples/Fake.antt =====
-- src/bin/clients.rs and src/bin/server.rs: the unit tests pass on the model.
use rdma_prototype.Base.{◌≡◌, refl, true, false, [], ◌∷◌}
use rdma_prototype.State.{connected, peer_closed}
use rdma_prototype.State.Client.{default, hello, bytes}
use rdma_prototype.State.Server.{new}
use rdma_prototype.Outcome.{ok, err, message}
use rdma_prototype.Client.Fake.{fake_poll, fake_send}
use rdma_prototype.Client.Tests as Client
use rdma_prototype.Client.Tests.{hello_posted, scripted}
use rdma_prototype.Server.Tests as Server

client_either_order :
    ((Client.either_order true default).0 ≡ ok tt) × ((Client.either_order false default).0 ≡ ok tt)
unfolding Client.either_order
client_either_order = (refl, refl)

-- b"hello", b"world\0", b"" and b"wor"
client_invalid_replies :
    ((Client.invalid_reply (bytes hello) hello_posted).0 ≡ ok tt)
    × ((Client.invalid_reply (119 ∷ 111 ∷ 114 ∷ 108 ∷ 100 ∷ 0 ∷ []) hello_posted).0 ≡ ok tt)
    × ((Client.invalid_reply [] hello_posted).0 ≡ ok tt)
    × ((Client.invalid_reply (119 ∷ 111 ∷ 114 ∷ []) hello_posted).0 ≡ ok tt)
    × ((Client.duplicate_reply hello_posted).0 ≡ ok tt)
unfolding Client.invalid_reply Client.duplicate_reply bytes
client_invalid_replies = (refl, refl, refl, refl, refl)

client_retries : (Client.retries_eagain (scripted ((connected ∷ []) ∷ []) true)).0 ≡ ok tt
unfolding Client.retries_eagain bytes fake_poll fake_send
client_retries = refl

client_deadlines :
    ((Client.reaches_deadline (scripted ([] ∷ []) false)).0 ≡ ok tt)
    × ((Client.reaches_deadline (scripted ((connected ∷ peer_closed ∷ []) ∷ []) false)).0 ≡ ok tt)
unfolding Client.reaches_deadline fake_poll
client_deadlines = (refl, refl)

client_broken : Client.broken_exchange ≡ err (message "injected CQ error")
unfolding Client.broken_exchange
client_broken = refl

server_either_order :
    ((Server.either_order true new).0 ≡ ok tt) × ((Server.either_order false new).0 ≡ ok tt)
unfolding Server.either_order
server_either_order = (refl, refl)

server_invalid_message : (Server.invalid_message new).0 ≡ ok tt
unfolding Server.invalid_message
server_invalid_message = refl
