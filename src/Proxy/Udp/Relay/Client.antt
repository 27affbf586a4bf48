-- ===== src/Proxy/Udp/Relay/Client.antt =====
-- src/proxy/udp.rs: an association belongs to one client, and its queue is bounded.
use cf_warp_rust.Base.{
  leb, if◌then◌else◌, length, ℕ, ◌≡◌, false, ◌&&◌, some, List, [], ◌∷◌, ltb, Bool-cases, inl, inr,
  true, ◌≢◌, ◌↔◌, none,
}
use cf_warp_rust.Net.{ip_eq_iff, ip_eq, SocketAddr, addr_eq}
use cf_warp_rust.Proxy.Udp.Relay.{
  c2t_queue_depth, c2t_max_datagram, Association, Datagram, enqueue, receive,
}

-- The datagrams come from the client that the association belongs to.
abbrev pub IsFrom : SocketAddr → Datagram → Type 0
IsFrom client d = d.src ≡ client

-- What the receiving side makes of a row of datagrams, while the forwarding task takes none.
unfoldable pub receive_all : List Datagram → Association → Association
receive_all [] a = a
receive_all (d ∷ ds) a = receive_all ds (receive false d a)

-- The datagrams of one client, as the relay may carry them.
unfoldable pub carried : SocketAddr → List Datagram → List (List ℕ)
carried client [] = []
carried client (d ∷ ds) =
    if addr_eq d.src client && leb (length d.bytes) c2t_max_datagram
    then d.bytes ∷ carried client ds
    else carried client ds

client_kept :
    (d : Datagram) (a : Association)
    → (if ltb c2t_max_datagram (length d.bytes)
        then record a { client_addr = some d.src }
        else enqueue false d.bytes (record a { client_addr = some d.src })).client_addr
      ≡ some d.src
unfolding enqueue
client_kept d a = elim (Bool-cases (ltb c2t_max_datagram (length d.bytes))) [
  | inl l ↦ rw l
  | inr s ↦ elim (Bool-cases (ltb (length a.queue) c2t_queue_depth)) [
    | inl room ↦ rw (s, room)
    | inr full ↦ rw (s, full)
  ]
]

-- A new association belongs to the client of the first datagram that comes from the address of its control
-- connection, whatever its port and its length; a datagram from any other address changes nothing.
receive_first :
    (d : Datagram) (a : Association)
    → a.client_addr ≡ none
    → (d.src.ip ≡ a.allowed_client_ip → (receive false d a).client_addr ≡ some d.src)
      × (d.src.ip ≢ a.allowed_client_ip → receive false d a ≡ a)
unfolding receive
receive_first d a fresh = (near, far)
  where
    ours : ip_eq d.src.ip a.allowed_client_ip ≡ true ↔ (d.src.ip ≡ a.allowed_client_ip)
    ours = ip_eq_iff d.src.ip a.allowed_client_ip

    near : d.src.ip ≡ a.allowed_client_ip → (receive false d a).client_addr ≡ some d.src
    near e = rw (ours.1 e, fresh) (client_kept d a)

    far : d.src.ip ≢ a.allowed_client_ip → receive false d a ≡ a
    far e = elim (Bool-cases (ip_eq d.src.ip a.allowed_client_ip)) [
      | inl same ↦ absurd (e (ours.0 same))
      | inr other_ip ↦ rw other_ip
    ]
