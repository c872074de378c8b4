-- ===== src/Network/HeaderSync/Answers.antt =====
-- The chain is given headers only in answer to requests.
use bitclone.Base.{
  ℕ, suc, ◌+◌, ◌≤◌, ◌≡◌, Result, ok, err, not, ◌||◌, List, length, if◌then◌else◌, arith, inl, inr,
  Bool-cases,
}
use bitclone.Network.Peer.{PeerKey}
use bitclone.Network.HeaderSync.{
  HeaderChain, HeaderSync, is_syncing, is_sync_peer, request_next, start, after_batch,
  handle_headers, peer_disconnected, new,
}
use bitclone.Network.HeaderSync.Reachable.{Step, Reachable}

-- By a count of the batches that a chain was given: those since `before` and the one that is waited
-- for are no more than the requests sent.
abbrev pub Answered : {Chain : Type 0} → (Chain → ℕ) → ℕ → HeaderSync Chain → Type 0
Answered count before s =
    count s.blockchain + (if s.awaiting_headers then 1 else 0) ≤ before + length s.sent

module _ {Header Chain : Type 0} (chain : HeaderChain Header Chain) (count : Chain → ℕ) where
  request-Answered :
      (before : ℕ) (peer : PeerKey) (s : HeaderSync Chain)
      → Answered count before s
      → Answered count before (request_next chain peer s).1
  unfolding request_next
  request-Answered before peer s h = ground (arith, h)

  batch-Answered :
      (before : ℕ) (peer : PeerKey) (headers : List Header) (added : Result (List Header))
      (s : HeaderSync Chain)
      → Answered count before s
      → Answered count before (after_batch chain peer headers added s).1
  unfolding after_batch
  batch-Answered before peer headers (err e) s h = h
  batch-Answered before peer headers (ok accepted) s h = ground (
    arith,
    h,
    request-Answered before peer
        (record s {
          batches_received = s.batches_received + 1;
          headers_received = s.headers_received + length accepted;
        })
        h,
  )

  module _
      (counts : (headers : List Header) (c : Chain)
        → count (chain.add_headers headers c).1 ≡ suc (count c)) where
    handle-Answered :
        (before : ℕ) (peer : PeerKey) (headers : List Header) (s : HeaderSync Chain)
        → Answered count before s
        → Answered count before (handle_headers chain peer headers s).1
    unfolding handle_headers
    handle-Answered before peer headers s h =
        elim (Bool-cases (not (is_syncing s.state) || not (is_sync_peer peer s.peer_key))) [
          | inl g ↦ rw (g, handle_headers) h
          | inr g ↦ elim (Bool-cases (not s.awaiting_headers)) [
            | inl a ↦ rw (g, handle_headers) (rw a h)
            | inr a ↦
                rw (g, handle_headers)
                  (rw a (
                    batch-Answered before peer headers _ _
                      (ground (arith, a, h, counts headers s.blockchain))))
          ]
        ]

    Step-Answered :
        (before : ℕ) (s t : HeaderSync Chain)
        → Step chain s t
        → Answered count before s
        → Answered count before t
    unfolding start peer_disconnected
    Step-Answered before s t (Step.started peer _) h = request-Answered before peer _ h
    Step-Answered before s t (Step.received peer headers _) h =
        handle-Answered before peer headers s h
    Step-Answered before s t (Step.disconnected peer _) h = ground (arith, h)

    -- Where the chain counts the batches that it is given, then however the calls of `start`,
    -- `handle_headers` and `peer_disconnected` are ordered from the constructor on, whatever the peers
    -- send, and whether the calls raise or not, the batches that the chain was given, and one more
    -- while an answer is waited for, are no more than the requests sent.
    pub batches_answer_requests :
        (blockchain : Chain) (s : HeaderSync Chain)
        → Reachable chain (new blockchain) s
        → Answered count (count blockchain) s
    unfolding new
    batches_answer_requests blockchain s (Reachable.here _) = omega arith
    batches_answer_requests blockchain s (Reachable.after _ t _ r step) =
        Step-Answered (count blockchain) t s step (batches_answer_requests blockchain t r)
