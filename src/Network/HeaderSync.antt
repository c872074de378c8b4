-- ===== src/Network/HeaderSync.antt =====
-- network/header_sync.py, class HeaderSync. The chain that it fills is an interface: its block
-- locator, and `add_headers`, which tells how many of a batch are new.
pub mod Reachable
pub mod Answers
use bitclone.Base.{
  ℕ, suc, ◌+◌, Result, Error, ok, err, Bool, true, false, not, ◌&&◌, ◌||◌, List, [], ◌∷◌, Option,
  none, some, length, ◌==◌, if◌then◌else◌,
}
use bitclone.Base.Bytes.{Bytes}
use bitclone.Network.Peer.{PeerKey, peer_eq}

pub data HeaderSyncState : Type 0 where
  idle syncing complete failed : HeaderSyncState

unfoldable pub is_syncing : HeaderSyncState → Bool
is_syncing HeaderSyncState.syncing = true
is_syncing _ = false

abbrev pub max_headers_results : ℕ
max_headers_results = 2_000

-- What HeaderSync calls: of `Blockchain`, where `add_headers` may raise and has then still changed the
-- chain, and the callback `send_message`, which may raise.
pub record HeaderChain (Header : Type 0) (Chain : Type 0) : Type 0 where
  pub get_block_locator : Chain → List Bytes
  pub add_headers : List Header → Chain → Result (List Header) × Chain
  pub send_message : PeerKey → List Bytes → Result (Unit {0})

-- `sent` is what `_send_message` sent, the last request first.
pub record HeaderSync (Chain : Type 0) : Type 0 where
  pub blockchain : Chain
  pub state : HeaderSyncState
  pub peer_key : Option PeerKey
  pub awaiting_headers : Bool
  pub batches_received : ℕ
  pub headers_received : ℕ
  pub sent : List (PeerKey × List Bytes)

-- `peer.key != self.peer_key`, negated.
unfoldable pub is_sync_peer : PeerKey → Option PeerKey → Bool
is_sync_peer peer none = false
is_sync_peer peer (some p) = peer_eq peer p

module _ {Header Chain : Type 0} (chain : HeaderChain Header Chain) where
  unfoldable pub request_next : PeerKey → HeaderSync Chain → Result (List Bytes) × HeaderSync Chain
  request_next peer s = elim (chain.get_block_locator s.blockchain) [
    | [] ↦ (err Error.network_error, s)
    | l ∷ ls ↦ elim (chain.send_message peer (l ∷ ls)) [
      | err e ↦ (err e, s)
      | ok _ ↦ (ok (l ∷ ls), record s { sent = (peer, l ∷ ls) ∷ s.sent; awaiting_headers = true })
    ]
  ]

  unfoldable pub start : PeerKey → HeaderSync Chain → Result (List Bytes) × HeaderSync Chain
  start peer s = request_next peer (record s {
    peer_key = some peer;
    state = HeaderSyncState.syncing;
    batches_received = 0;
    headers_received = 0;
  })

  -- Behind `add_headers`: a full batch asks for the next, whose failure is the call's.
  unfoldable pub after_batch :
      PeerKey
      → List Header
      → Result (List Header)
      → HeaderSync Chain
      → Result (List Header) × HeaderSync Chain
  after_batch peer headers (err e) s = (err e, record s { state = HeaderSyncState.failed })
  after_batch peer headers (ok accepted) s =
      let s' = record s {
        batches_received = s.batches_received + 1;
        headers_received = s.headers_received + length accepted;
      } in
      if length headers == max_headers_results
      then (let (requested, s'') = request_next peer s' in
          (elim requested [ ok _ ↦ ok accepted | err e ↦ err e ], s''))
      else (ok accepted, record s' { state = HeaderSyncState.complete })

  unfoldable pub handle_headers :
      PeerKey → List Header → HeaderSync Chain → Result (List Header) × HeaderSync Chain
  handle_headers peer headers s =
      if not (is_syncing s.state) || not (is_sync_peer peer s.peer_key)
      then (err Error.network_error, s)
      else if not s.awaiting_headers
      then (err Error.network_error, s)
      else (let (added, blockchain) = chain.add_headers headers s.blockchain in
          after_batch peer headers added
            (record s { awaiting_headers = false; blockchain = blockchain }))

  unfoldable pub peer_disconnected : PeerKey → HeaderSync Chain → HeaderSync Chain
  peer_disconnected peer s =
      if is_sync_peer peer s.peer_key && is_syncing s.state
      then record s { state = HeaderSyncState.idle; awaiting_headers = false; peer_key = none }
      else s

-- The constructor.
unfoldable pub new : {Chain : Type 0} → Chain → HeaderSync Chain
new blockchain = record {
  blockchain = blockchain;
  state = HeaderSyncState.idle;
  peer_key = none;
  awaiting_headers = false;
  batches_received = 0;
  headers_received = 0;
  sent = [];
}
