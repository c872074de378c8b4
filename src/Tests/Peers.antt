-- ===== src/Tests/Peers.antt =====
-- network/ at concrete inputs.
use bitclone.Base.{ℕ, suc, ◌≡◌, refl, ok, true, false, List, [], ◌∷◌, none, some, arith}
use bitclone.Base.Bytes.{Bytes}
use bitclone.Network.Peer.{PeerKey, peer_eq}
use bitclone.Network.HeaderSync.{HeaderChain, start, handle_headers, new}
use bitclone.Network.HeaderSync.Reachable.{Step, Reachable, IsWellFormed, Reachable-IsWellFormed}
use bitclone.Network.HeaderSync.Answers.{Answered, batches_answer_requests}
use bitclone.Network.Inventory.{
  InvVector, InventoryKind, InflightInventory, claim, claim_key, expire_locked, without, release,
  inventory_key, is_tx_type, is_block_type,
}
use bitclone.Network.Inventory.Interleaved
use bitclone.Network.Inventory.Interleaved.{Steps, claim_is_exclusive}
use bitclone.Network.Keepalive.{
  Peer, PeerState, States, KeepaliveState, maintain, ready_keys, keep_ready, set_defaults,
  is_timed_out, is_due, peers_that, pop_all, ping_all, ping, send,
}
use bitclone.Network.PeerDiscipline.{
  PeerDiscipline, PeerMisbehaviour, record_violation, score, is_banned, ban,
}
use bitclone.Network.PeerDiscipline.Consistent.{IsConsistent, methods-IsConsistent}

abbrev peer : PeerKey
peer = record { host = 10 ∷ []; port = 8333 }

abbrev other : PeerKey
other = record { host = 11 ∷ []; port = 8333 }

-- A chain of numbers that accepts every header.
abbrev chain : HeaderChain ℕ (List ℕ)
chain = record {
  get_block_locator = λ c. (0 ∷ []) ∷ [];
  add_headers = λ headers c. (ok headers, headers);
  send_message = λ peer locator. ok tt;
}

Reachable-IsWellFormed_example :
    IsWellFormed (handle_headers chain peer (7 ∷ []) (start chain peer (new [])).1).1
Reachable-IsWellFormed_example = Reachable-IsWellFormed chain [] _ (
    Reachable.after _ _ _
      (Reachable.after _ _ _ (Reachable.here (new [])) (Step.started peer (new [])))
      (Step.received peer (7 ∷ []) (start chain peer (new [])).1))

-- A chain that counts the batches.
abbrev counting : HeaderChain ℕ ℕ
counting = record {
  get_block_locator = λ c. (0 ∷ []) ∷ [];
  add_headers = λ headers c. (ok headers, suc c);
  send_message = λ peer locator. ok tt;
}

batches_answer_requests_example :
    Answered (λ c. c) 3 (handle_headers counting peer (7 ∷ []) (start counting peer (new 3)).1).1
batches_answer_requests_example =
    batches_answer_requests counting (λ c. c) (λ headers c. refl) 3 _
      (Reachable.after _ _ _
        (Reachable.after _ _ _ (Reachable.here (new 3)) (Step.started peer (new 3)))
        (Step.received peer (7 ∷ []) (start counting peer (new 3)).1))

-- A transaction, and the same one asked for with its witness.
abbrev tx_vector : InvVector
tx_vector = record { inv_type = 0x01; obj_hash = 5 ∷ [] }

abbrev witness_vector : InvVector
witness_vector = record { inv_type = 0x4000_0001; obj_hash = 5 ∷ [] }

abbrev nothing_inflight : InflightInventory
nothing_inflight = record { timeout = 60; requests = [] }

-- Another object, of another peer, that is released again.
abbrev other_vector : InvVector
other_vector = record { inv_type = 0x02; obj_hash = 6 ∷ [] }

abbrev granted : InflightInventory
granted = (claim 100 tx_vector peer nothing_inflight).1

abbrev between : InflightInventory
between = (release other_vector (claim 110 other_vector other granted).1).1

between-Steps : Steps (InventoryKind.tx, 5 ∷ []) peer 160 granted between
unfolding inventory_key is_tx_type is_block_type
between-Steps =
    Steps.after granted (claim 110 other_vector other granted).1 between
      (Steps.after granted granted _ (Steps.here granted)
        (Interleaved.Step.claimed 110 other_vector other granted (omega arith)))
      (Interleaved.Step.released other_vector _ (λ e. cc))

claim_is_exclusive_example : (claim 130 witness_vector other between).0 ≡ false
unfolding inventory_key is_tx_type is_block_type claim claim_key expire_locked without
claim_is_exclusive_example =
    claim_is_exclusive 100 130 tx_vector witness_vector peer other (InventoryKind.tx, 5 ∷ [])
      nothing_inflight between refl refl refl between-Steps (omega arith)

abbrev host : Bytes
host = 10 ∷ []

abbrev discipline : PeerDiscipline
discipline = record { ban_threshold = 50; ban_duration = 10; scores = []; bans = [] }

nothing-IsConsistent : IsConsistent discipline
nothing-IsConsistent _ = tt

-- Invalid data bans at once, at a threshold of 50.
methods-IsConsistent_example :
    IsConsistent (record_violation 3 4 host PeerMisbehaviour.invalid_data discipline).1
    × IsConsistent (score 3 host discipline).1
    × IsConsistent (is_banned 3 host discipline).1
    × IsConsistent (ban 3 host discipline).1
methods-IsConsistent_example =
    methods-IsConsistent 3 4 host PeerMisbehaviour.invalid_data discipline nothing-IsConsistent

-- One peer has not answered for 30 seconds, the other is due.
abbrev states : States
states =
    (peer, record { next_ping_at = 0; pending_nonce = some 1; ping_sent_at = some 970 })
    ∷ (other, record { next_ping_at = 990; pending_nonce = none; ping_sent_at = none })
    ∷ []

abbrev peers : List Peer
peers =
    record { key = peer; state = PeerState.ready }
    ∷ record { key = other; state = PeerState.ready }
    ∷ []

abbrev pinged : KeepaliveState
pinged = record { next_ping_at = 990; pending_nonce = some 7; ping_sent_at = some 1001 }

maintain_run :
    maintain 120 20 (λ p n. true) (λ i. 1001) (λ i. 7) 1000 peers states
    ≡ (other ∷ [], peer ∷ [], (other, pinged) ∷ [])
unfolding maintain ready_keys keep_ready set_defaults is_timed_out is_due peers_that pop_all
    ping_all ping send peer_eq
maintain_run = refl
