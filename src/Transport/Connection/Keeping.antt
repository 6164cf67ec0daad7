-- ===== src/Transport/Connection/Keeping.antt =====
-- src/transport.rs: the steps of `Connection::close` from each resource on, and what they leave alone.
use rdma_prototype.Base.{◌≡◌}
use rdma_prototype.Ffi.{Ptr}
use rdma_prototype.Machine.{Machine, At, Exec, ◌>>◌}
use rdma_prototype.Transport.Handle.Plan.{Keeps, Keeps-seq}
use rdma_prototype.Transport.Slot.{Slot}
use rdma_prototype.Transport.Connection.{Connection}
use rdma_prototype.Transport.Connection.Close.{
  close_ep, close_tx_cq, close_rx_cq, close_tx, close_rx, close_eq, close_domain,
}

module _ (M : Machine) where
  -- The rest of `close`, from each resource on.
  abbrev pub from_domain : Exec (At M Connection) Unit
  from_domain = close_domain M

  abbrev pub from_eq : Exec (At M Connection) Unit
  from_eq = close_eq M >> from_domain

  abbrev pub from_rx : Exec (At M Connection) Unit
  from_rx = close_rx M >> from_eq

  abbrev pub from_tx : Exec (At M Connection) Unit
  from_tx = close_tx M >> from_rx

  abbrev pub from_rx_cq : Exec (At M Connection) Unit
  from_rx_cq = close_rx_cq M >> from_tx

  abbrev pub from_tx_cq : Exec (At M Connection) Unit
  from_tx_cq = close_tx_cq M >> from_rx_cq

  abbrev pub from_ep : Exec (At M Connection) Unit
  from_ep = close_ep M >> from_tx_cq

  -- It keeps whatever reads none of the resources that it closes.
  module _ {A : Type 0} (read : Connection → A) where
    pub Keeps-close_domain :
        ((p : Ptr) (c : Connection) → read (record c { domain = p }) ≡ read c)
        → Keeps M read (close_domain M)
    unfolding close_domain
    Keeps-close_domain lens = record { at = λ s. lens _ s.self }

    pub Keeps-close_eq :
        ((p : Ptr) (c : Connection) → read (record c { eq = p }) ≡ read c)
        → Keeps M read (close_eq M)
    unfolding close_eq
    Keeps-close_eq lens = record { at = λ s. lens _ s.self }

    pub Keeps-from_eq :
        ((p : Ptr) (c : Connection) → read (record c { eq = p }) ≡ read c)
        → ((p : Ptr) (c : Connection) → read (record c { domain = p }) ≡ read c)
        → Keeps M read from_eq
    Keeps-from_eq h_eq h_domain =
        Keeps-seq M read (close_eq M) from_domain (Keeps-close_eq h_eq)
          (Keeps-close_domain h_domain)

    pub Keeps-close_rx :
        ((p : Slot) (c : Connection) → read (record c { rx = p }) ≡ read c)
        → Keeps M read (close_rx M)
    unfolding close_rx
    Keeps-close_rx lens = record { at = λ s. lens _ s.self }

    pub Keeps-from_rx :
        ((p : Slot) (c : Connection) → read (record c { rx = p }) ≡ read c)
        → ((p : Ptr) (c : Connection) → read (record c { eq = p }) ≡ read c)
        → ((p : Ptr) (c : Connection) → read (record c { domain = p }) ≡ read c)
        → Keeps M read from_rx
    Keeps-from_rx h_rx h_eq h_domain =
        Keeps-seq M read (close_rx M) from_eq (Keeps-close_rx h_rx) (Keeps-from_eq h_eq h_domain)

    pub Keeps-close_tx :
        ((p : Slot) (c : Connection) → read (record c { tx = p }) ≡ read c)
        → Keeps M read (close_tx M)
    unfolding close_tx
    Keeps-close_tx lens = record { at = λ s. lens _ s.self }

    pub Keeps-from_tx :
        ((p : Slot) (c : Connection) → read (record c { tx = p }) ≡ read c)
        → ((p : Slot) (c : Connection) → read (record c { rx = p }) ≡ read c)
        → ((p : Ptr) (c : Connection) → read (record c { eq = p }) ≡ read c)
        → ((p : Ptr) (c : Connection) → read (record c { domain = p }) ≡ read c)
        → Keeps M read from_tx
    Keeps-from_tx h_tx h_rx h_eq h_domain =
        Keeps-seq M read (close_tx M) from_rx (Keeps-close_tx h_tx)
          (Keeps-from_rx h_rx h_eq h_domain)

    pub Keeps-close_rx_cq :
        ((p : Ptr) (c : Connection) → read (record c { rx_cq = p }) ≡ read c)
        → Keeps M read (close_rx_cq M)
    unfolding close_rx_cq
    Keeps-close_rx_cq lens = record { at = λ s. lens _ s.self }

    pub Keeps-from_rx_cq :
        ((p : Ptr) (c : Connection) → read (record c { rx_cq = p }) ≡ read c)
        → ((p : Slot) (c : Connection) → read (record c { tx = p }) ≡ read c)
        → ((p : Slot) (c : Connection) → read (record c { rx = p }) ≡ read c)
        → ((p : Ptr) (c : Connection) → read (record c { eq = p }) ≡ read c)
        → ((p : Ptr) (c : Connection) → read (record c { domain = p }) ≡ read c)
        → Keeps M read from_rx_cq
    Keeps-from_rx_cq h_rx_cq h_tx h_rx h_eq h_domain =
        Keeps-seq M read (close_rx_cq M) from_tx (Keeps-close_rx_cq h_rx_cq)
          (Keeps-from_tx h_tx h_rx h_eq h_domain)

    pub Keeps-close_tx_cq :
        ((p : Ptr) (c : Connection) → read (record c { tx_cq = p }) ≡ read c)
        → Keeps M read (close_tx_cq M)
    unfolding close_tx_cq
    Keeps-close_tx_cq lens = record { at = λ s. lens _ s.self }

    pub Keeps-from_tx_cq :
        ((p : Ptr) (c : Connection) → read (record c { tx_cq = p }) ≡ read c)
        → ((p : Ptr) (c : Connection) → read (record c { rx_cq = p }) ≡ read c)
        → ((p : Slot) (c : Connection) → read (record c { tx = p }) ≡ read c)
        → ((p : Slot) (c : Connection) → read (record c { rx = p }) ≡ read c)
        → ((p : Ptr) (c : Connection) → read (record c { eq = p }) ≡ read c)
        → ((p : Ptr) (c : Connection) → read (record c { domain = p }) ≡ read c)
        → Keeps M read from_tx_cq
    Keeps-from_tx_cq h_tx_cq h_rx_cq h_tx h_rx h_eq h_domain =
        Keeps-seq M read (close_tx_cq M) from_rx_cq (Keeps-close_tx_cq h_tx_cq)
          (Keeps-from_rx_cq h_rx_cq h_tx h_rx h_eq h_domain)

    pub Keeps-close_ep :
        ((p : Ptr) (c : Connection) → read (record c { ep = p }) ≡ read c)
        → Keeps M read (close_ep M)
    unfolding close_ep
    Keeps-close_ep lens = record { at = λ s. lens _ s.self }

    pub Keeps-from_ep :
        ((p : Ptr) (c : Connection) → read (record c { ep = p }) ≡ read c)
        → ((p : Ptr) (c : Connection) → read (record c { tx_cq = p }) ≡ read c)
        → ((p : Ptr) (c : Connection) → read (record c { rx_cq = p }) ≡ read c)
        → ((p : Slot) (c : Connection) → read (record c { tx = p }) ≡ read c)
        → ((p : Slot) (c : Connection) → read (record c { rx = p }) ≡ read c)
        → ((p : Ptr) (c : Connection) → read (record c { eq = p }) ≡ read c)
        → ((p : Ptr) (c : Connection) → read (record c { domain = p }) ≡ read c)
        → Keeps M read from_ep
    Keeps-from_ep h_ep h_tx_cq h_rx_cq h_tx h_rx h_eq h_domain =
        Keeps-seq M read (close_ep M) from_tx_cq (Keeps-close_ep h_ep)
          (Keeps-from_tx_cq h_tx_cq h_rx_cq h_tx h_rx h_eq h_domain)
