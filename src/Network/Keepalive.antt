-- ===== src/Network/Keepalive.antt =====
-- network/keepalive.py, class PeerKeepalive, without its thread. Times are natural. A peer stands for
-- its key, under which the dict holds its state, so that the state does not name it again.
pub mod Current
use bitclone.Base.{
  ℕ, suc, ◌+◌, Bool, true, false, ◌&&◌, List, [], ◌∷◌, ◌++◌, Option, none, some, leb, ◌==◌,
  if◌then◌else◌,
}
use bitclone.Base.Dict.{lookup, drop_key, insert, contains, is_member}
use bitclone.Network.Peer.{PeerKey, peer_eq}

pub data PeerState : Type 0 where
  disconnected connecting connected handshaking ready disconnecting : PeerState

pub record Peer : Type 0 where
  pub key : PeerKey
  pub state : PeerState

abbrev pub is_ready : PeerState → Bool
is_ready PeerState.ready = true
is_ready _ = false

pub record KeepaliveState : Type 0 where
  pub next_ping_at : ℕ
  pub pending_nonce : Option ℕ
  pub ping_sent_at : Option ℕ

abbrev pub States : Type 0
States = List (PeerKey × KeepaliveState)

abbrev pub new_state : ℕ → KeepaliveState
new_state at = record { next_ping_at = at; pending_nonce = none; ping_sent_at = none }

unfoldable pub forget : PeerKey → States → States
forget peer states = drop_key peer_eq peer states

-- `send_ping` says whether the callback returns; where it raises, the state is given up.
unfoldable pub send :
    (PeerKey → ℕ → Bool) → ℕ → ℕ → PeerKey → KeepaliveState → States → Option ℕ × States
send send_ping now nonce peer s states =
    if send_ping peer nonce
    then (
      some nonce,
      insert peer_eq peer (record s { pending_nonce = some nonce; ping_sent_at = some now }) states,
    )
    else (none, drop_key peer_eq peer states)

-- The nonce, or none where `ping` raises.
unfoldable pub ping : (PeerKey → ℕ → Bool) → ℕ → ℕ → PeerKey → States → Option ℕ × States
ping send_ping now nonce peer states = elim (lookup peer_eq peer states) [
  | none ↦ send send_ping now nonce peer (new_state now) states
  | some s ↦ elim s.pending_nonce [
    | some pending ↦ (some pending, states)
    | none ↦ send send_ping now nonce peer s states
  ]
]

unfoldable pub is_pending : ℕ → Option ℕ → Bool
is_pending nonce none = false
is_pending nonce (some pending) = pending == nonce

unfoldable pub handle_pong : ℕ → ℕ → ℕ → PeerKey → States → Bool × States
handle_pong ping_interval now nonce peer states = elim (lookup peer_eq peer states) [
  | none ↦ (false, states)
  | some s ↦
      if is_pending nonce s.pending_nonce
      then (true, insert peer_eq peer (new_state (now + ping_interval)) states)
      else (false, states)
]

unfoldable pub pending_nonce : PeerKey → States → Option ℕ
pending_nonce peer states = elim (lookup peer_eq peer states) [
  | none ↦ none
  | some s ↦ s.pending_nonce
]

unfoldable pub pending_count : States → ℕ
pending_count [] = 0
pending_count ((k, s) ∷ states) =
    let rest = pending_count states in elim s.pending_nonce [ none ↦ rest | some nonce ↦ suc rest ]

-- `ready`, as its keys.
unfoldable pub ready_keys : List Peer → List PeerKey
ready_keys [] = []
ready_keys (p ∷ ps) = let rest = ready_keys ps in if is_ready p.state then p.key ∷ rest else rest

unfoldable pub keep_ready : List PeerKey → States → States
keep_ready keys [] = []
keep_ready keys ((k, s) ∷ states) =
    let rest = keep_ready keys states in if is_member peer_eq k keys then (k, s) ∷ rest else rest

-- `setdefault` for each ready peer.
unfoldable pub set_defaults : ℕ → List PeerKey → States → States
set_defaults at [] states = states
set_defaults at (k ∷ ks) states =
    set_defaults at ks
      (if contains peer_eq k states then states else insert peer_eq k (new_state at) states)

unfoldable pub is_timed_out : ℕ → ℕ → KeepaliveState → Bool
is_timed_out pong_timeout now s = elim s.pending_nonce [
  | none ↦ false
  | some nonce ↦ elim s.ping_sent_at [
    | none ↦ false
    | some sent_at ↦ leb (sent_at + pong_timeout) now
  ]
]

unfoldable pub is_due : ℕ → KeepaliveState → Bool
is_due now s = elim s.pending_nonce [ none ↦ leb s.next_ping_at now | some nonce ↦ false ]

-- The peers of `timed_out` and of `due`.
unfoldable pub peers_that : (KeepaliveState → Bool) → States → List PeerKey
peers_that test [] = []
peers_that test ((k, s) ∷ states) =
    let rest = peers_that test states in if test s then k ∷ rest else rest

unfoldable pub pop_all : List PeerKey → States → States
pop_all [] states = states
pop_all (k ∷ ks) states = pop_all ks (drop_key peer_eq k states)

-- The last loop: the peers that were sent a ping, and those that are disconnected since it refused.
-- `clock n` and `nonces n` are what the clock and the nonce factory give for the peer at `n`.
unfoldable pub ping_all :
    (PeerKey → ℕ → Bool)
    → (ℕ → ℕ)
    → (ℕ → ℕ)
    → ℕ
    → List PeerKey
    → States
    → List PeerKey × List PeerKey × States
ping_all send_ping clock nonces n [] states = ([], [], states)
ping_all send_ping clock nonces n (p ∷ ps) states =
    let (nonce, states') = ping send_ping (clock n) (nonces n) p states in
    let (sent, refused, last) = ping_all send_ping clock nonces (suc n) ps states' in
    elim nonce [ none ↦ (sent, p ∷ refused, last) | some _ ↦ (p ∷ sent, refused, last) ]

-- What is sent, who is disconnected, and the states.
unfoldable pub maintain :
    ℕ
    → ℕ
    → (PeerKey → ℕ → Bool)
    → (ℕ → ℕ)
    → (ℕ → ℕ)
    → ℕ
    → List Peer
    → States
    → List PeerKey × List PeerKey × States
maintain ping_interval pong_timeout send_ping clock nonces now peers states =
    let keys = ready_keys peers in
    let tracked = set_defaults (now + ping_interval) keys (keep_ready keys states) in
    let timed_out = peers_that (is_timed_out pong_timeout now) tracked in
    let left = pop_all timed_out tracked in
    let (sent, refused, last) =
      ping_all send_ping clock nonces 0 (peers_that (is_due now) left) left in
    (sent, timed_out ++ refused, last)
