-- ===== src/Network/Keepalive/Current.antt =====
-- What a pass of `maintain` leaves.
use bitclone.Base.{ℕ, ◌≡◌, true, false, List, some}
use bitclone.Base.Dict.{lookup, is_member}
use bitclone.Network.Peer.{PeerKey, peer_eq}
use bitclone.Network.Keepalive.{KeepaliveState, States, Peer, is_timed_out, is_due}

-- What every key that is looked up satisfies.
abbrev pub AllOf : (PeerKey → KeepaliveState → Type 0) → States → Type 0
AllOf P states = (k : PeerKey) (s : KeepaliveState) → lookup peer_eq k states ≡ some s → P k s

module _ (pong_timeout now : ℕ) (keys : List PeerKey) where
  -- The state of a ready peer that has not timed out, and that is among `ps` if it is due.
  abbrev Waits : List PeerKey → PeerKey → KeepaliveState → Type 0
  Waits ps k s =
      (is_member peer_eq k keys ≡ true)
      × (is_timed_out pong_timeout now s ≡ false)
      × (is_due now s ≡ true → is_member peer_eq k ps ≡ true)
