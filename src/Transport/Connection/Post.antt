-- ===== src/Transport/Connection/Post.antt =====
-- Proofs about `post_recv` and `send`: what each has done, by how it ended.
use rdma_prototype.Base.{
  ◌≤◌, ◌≡◌, ◌≢◌, List, ◌∷◌, Bool, true, false, some, none, arith, length, pos, ℤ, is_zero, ◌⊎◌, ℕ,
}
use rdma_prototype.Outcome.{Outcome, ok, err, panic, unfinished}
use rdma_prototype.Ffi.{null, Status, post_send, post_recv as recv_call}
use rdma_prototype.Machine.{Machine, At, called, stored}
use rdma_prototype.Transport.Slot.{Bytes}
use rdma_prototype.Transport.Connection.{
  Connection, post_recv, send, set_rx_pending, set_tx_pending,
}

-- A method may use the connection.
abbrev pub IsOpen : Connection → Type 0
IsOpen c = (c.ep ≢ null) × (c.closing ≡ false)

module _ (M : Machine) where
  -- The receive that the slot posts, and its code.
  abbrev pub recv_of : Connection → Bytes → Status
  recv_of c b = recv_call c.ep c.rx.op c.rx.mr b.len b.ptr

  abbrev pub recv_code : At M Connection → Bytes → ℤ
  recv_code s b = (M.status (recv_of s.self b) s.env.world).0

  -- The send of a message, and its code once the message is in the buffer.
  abbrev pub send_of : Connection → Bytes → List ℕ → Status
  send_of c b text = post_send c.ep c.tx.op c.tx.mr (length text) b.ptr

  abbrev pub send_code : At M Connection → Bytes → List ℕ → ℤ
  send_code s b text = (M.status (send_of s.self b text) (M.store b.ptr text s.env.world)).0

  -- What a call of `post_recv` has done, by how it ended.
  abbrev pub PostsRecv : At M Connection → Outcome Bool × At M Connection → Type 0
  PostsRecv s (ok true, t) =
      IsOpen s.self
      × (s.self.rx.pending ≡ false)
      × (t.self ≡ set_rx_pending true s.self)
      × ((b : Bytes) × (s.self.rx.bytes ≡ some b)
          × (t.env.trace ≡ called (recv_of s.self b) (pos 0) ∷ s.env.trace))
  PostsRecv s (ok false, t) =
      IsOpen s.self
      × (s.self.rx.pending ≡ false)
      × (t.self ≡ s.self)
      × ((b : Bytes) × (s.self.rx.bytes ≡ some b)
          × (is_zero (M.error_is_again (recv_code s b)) ≡ false)
          × (t.env.world ≡ (M.status (recv_of s.self b) s.env.world).1)
          × (t.env.trace ≡ called (recv_of s.self b) (recv_code s b) ∷ s.env.trace))
  PostsRecv s (err e, t) =
      (t.self ≡ s.self)
      × ((t.env ≡ s.env)
          ⊎ ((b : Bytes) × (s.self.rx.bytes ≡ some b)
              × (is_zero (recv_code s b) ≡ false)
              × (t.env.trace ≡ called (recv_of s.self b) (recv_code s b) ∷ s.env.trace)))
  PostsRecv s (panic, t) = (s.self.rx.bytes ≡ none) × (s.self.closing ≡ false)
  PostsRecv s (unfinished, t) = ⊥

  pub post_recv-PostsRecv : (s : At M Connection) → PostsRecv s (post_recv M s)
  unfolding post_recv
  post_recv-PostsRecv s = ground arith

  -- A send writes the message to its buffer before it submits.
  abbrev pub Sends : List ℕ → At M Connection → Outcome Bool × At M Connection → Type 0
  Sends text s (ok true, t) =
      IsOpen s.self
      × (s.self.tx.pending ≡ false)
      × (t.self ≡ set_tx_pending true s.self)
      × ((b : Bytes) × (s.self.tx.bytes ≡ some b)
          × (length text ≤ b.len)
          × (t.env.trace ≡ called (send_of s.self b text) (pos 0) ∷ stored b.ptr ∷ s.env.trace))
  Sends text s (ok false, t) =
      IsOpen s.self
      × (s.self.tx.pending ≡ false)
      × (t.self ≡ s.self)
      × ((b : Bytes) × (s.self.tx.bytes ≡ some b)
          × (length text ≤ b.len)
          × (is_zero (M.error_is_again (send_code s b text)) ≡ false)
          × (t.env.trace
              ≡ called (send_of s.self b text) (send_code s b text) ∷ stored b.ptr ∷ s.env.trace))
  Sends text s (err e, t) =
      (t.self ≡ s.self)
      × ((t.env ≡ s.env)
          ⊎ ((b : Bytes) × (s.self.tx.bytes ≡ some b)
              × (s.self.tx.pending ≡ false)
              × (is_zero (send_code s b text) ≡ false)
              × (t.env.trace
                  ≡ called (send_of s.self b text) (send_code s b text)
                    ∷ stored b.ptr
                    ∷ s.env.trace)))
  Sends text s (panic, t) = (s.self.tx.bytes ≡ none) × (s.self.closing ≡ false)
  Sends text s (unfinished, t) = ⊥

  pub send-Sends : (text : List ℕ) (s : At M Connection) → Sends text s (send M text s)
  unfolding send
  send-Sends text s = ground arith steps 30000000
