-- ===== src/Network/HeaderSync/Reachable.antt =====
-- The states that a synchronization reaches, whatever its peers send and in whatever order.
use bitclone.Base.{
  ◌+◌, length, ◌≡◌, refl, Result, ok, err, Bool, true, false, not, ◌||◌, List, Option, none, some,
  arith, inl, inr, Bool-cases,
}
use bitclone.Network.Peer.{PeerKey}
use bitclone.Network.HeaderSync.{
  HeaderSyncState, HeaderChain, HeaderSync, is_syncing, is_sync_peer, request_next, start,
  after_batch, handle_headers, peer_disconnected, new,
}

module _ {Header Chain : Type 0} (chain : HeaderChain Header Chain) where
  -- One call on the object, which may raise.
  pub data Step : HeaderSync Chain → HeaderSync Chain → Type 0 where
    started : (peer : PeerKey) (s : HeaderSync Chain) → Step s (start chain peer s).1
    received :
        (peer : PeerKey) (headers : List Header) (s : HeaderSync Chain)
        → Step s (handle_headers chain peer headers s).1
    disconnected : (peer : PeerKey) (s : HeaderSync Chain) → Step s (peer_disconnected chain peer s)

  pub data Reachable : HeaderSync Chain → HeaderSync Chain → Type 0 where
    here : (s : HeaderSync Chain) → Reachable s s
    after : (s t u : HeaderSync Chain) → Reachable s t → Step t u → Reachable s u

-- By the state, the peer and the outstanding request: a request belongs to a running
-- synchronization, which has a peer.
abbrev pub Consistent : HeaderSyncState → Option PeerKey → Bool → Type 0
Consistent HeaderSyncState.syncing (some p) awaiting = Unit
Consistent HeaderSyncState.syncing none awaiting = ⊥
Consistent HeaderSyncState.idle key true = ⊥
Consistent HeaderSyncState.complete key true = ⊥
Consistent HeaderSyncState.failed key true = ⊥
Consistent _ key false = Unit

abbrev pub IsWellFormed : {Chain : Type 0} → HeaderSync Chain → Type 0
IsWellFormed s = Consistent s.state s.peer_key s.awaiting_headers

is_syncing-eq :
    (state : HeaderSyncState) → is_syncing state ≡ true → state ≡ HeaderSyncState.syncing
unfolding is_syncing
is_syncing-eq HeaderSyncState.idle h = ground arith
is_syncing-eq HeaderSyncState.syncing h = refl
is_syncing-eq HeaderSyncState.complete h = ground arith
is_syncing-eq HeaderSyncState.failed h = ground arith

is_sync_peer-eq :
    (peer : PeerKey) (key : Option PeerKey)
    → is_sync_peer peer key ≡ true
    → (p : PeerKey) × (key ≡ some p)
unfolding is_sync_peer
is_sync_peer-eq peer none h = ground arith
is_sync_peer-eq peer (some p) h = (p, refl)

module _ {Header Chain : Type 0} (chain : HeaderChain Header Chain) where
  -- A request changes neither the state nor the peer.
  request-kept :
      (peer : PeerKey) (s : HeaderSync Chain)
      → ((request_next chain peer s).1.state ≡ s.state)
        × ((request_next chain peer s).1.peer_key ≡ s.peer_key)
  unfolding request_next
  request-kept peer s = ground arith

  request-IsWellFormed :
      (peer : PeerKey) (p : PeerKey) (s : HeaderSync Chain)
      → s.state ≡ HeaderSyncState.syncing
      → s.peer_key ≡ some p
      → IsWellFormed (request_next chain peer s).1
  request-IsWellFormed peer p s e f = ground (arith, request-kept peer s, e, f)

  batch-IsWellFormed :
      (peer p : PeerKey) (headers : List Header) (added : Result (List Header))
      (s : HeaderSync Chain)
      → s.state ≡ HeaderSyncState.syncing
      → s.peer_key ≡ some p
      → s.awaiting_headers ≡ false
      → IsWellFormed (after_batch chain peer headers added s).1
  unfolding after_batch
  batch-IsWellFormed peer p headers (err x) s e f g = ground arith
  batch-IsWellFormed peer p headers (ok accepted) s e f g = ground (
    arith,
    e,
    f,
    g,
    request-IsWellFormed peer p
        (record s {
          batches_received = s.batches_received + 1;
          headers_received = s.headers_received + length accepted;
        })
        e f,
  )

  handle-IsWellFormed :
      (peer : PeerKey) (headers : List Header) (s : HeaderSync Chain)
      → IsWellFormed s
      → IsWellFormed (handle_headers chain peer headers s).1
  unfolding handle_headers
  handle-IsWellFormed peer headers s h =
      elim (Bool-cases (not (is_syncing s.state) || not (is_sync_peer peer s.peer_key))) [
        | inl g ↦ rw (g, handle_headers) h
        | inr g ↦ elim (Bool-cases (not s.awaiting_headers)) [
          | inl a ↦ rw (g, handle_headers) (rw a h)
          | inr a ↦
              let state : s.state ≡ HeaderSyncState.syncing =
                is_syncing-eq s.state (ground (arith, g)) in
              let (p, key) = is_sync_peer-eq peer s.peer_key (ground (arith, g)) in
              rw (g, handle_headers) (rw a (batch-IsWellFormed peer p headers _ _ state key refl))
        ]
      ]

  Step-IsWellFormed : (s t : HeaderSync Chain) → Step chain s t → IsWellFormed s → IsWellFormed t
  unfolding start peer_disconnected is_syncing is_sync_peer
  Step-IsWellFormed s t (started peer _) h = request-IsWellFormed peer peer _ refl refl
  Step-IsWellFormed s t (received peer headers _) h = handle-IsWellFormed peer headers s h
  Step-IsWellFormed s t (disconnected peer _) h = ground arith

  -- However the calls of `start`, `handle_headers` and `peer_disconnected` are ordered from the
  -- constructor on, and whether they raise or not, a request is outstanding only while the
  -- synchronization runs, and it has a peer while it does.
  pub Reachable-IsWellFormed :
      (blockchain : Chain) (s : HeaderSync Chain)
      → Reachable chain (new blockchain) s
      → IsWellFormed s
  unfolding new
  Reachable-IsWellFormed blockchain s (here _) = tt
  Reachable-IsWellFormed blockchain s (after _ t _ r step) =
      Step-IsWellFormed t s step (Reachable-IsWellFormed blockchain t r)
