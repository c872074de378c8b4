-- ===== src/Network/Peer.antt =====
-- network/peer_address_book.py, PeerKey: a host and a port.
use bitclone.Base.{ℕ, ◌≡◌, Bool, true, ◌&&◌, ◌==◌, arith}
use bitclone.Base.Bytes.{Bytes, bytes_eq, bytes_eq→eq, bytes_eq_refl}

pub record PeerKey : Type 0 where
  pub host : Bytes
  pub port : ℕ

unfoldable pub peer_eq : PeerKey → PeerKey → Bool
peer_eq a b = bytes_eq a.host b.host && (a.port == b.port)

pub peer_eq→eq : (a b : PeerKey) → peer_eq a b ≡ true → a ≡ b
unfolding peer_eq
peer_eq→eq a b h = ground (arith, bytes_eq→eq a.host b.host)

pub peer_eq_refl : (a : PeerKey) → peer_eq a a ≡ true
unfolding peer_eq
peer_eq_refl a = ground (arith, bytes_eq_refl a.host)
