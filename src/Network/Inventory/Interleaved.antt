-- ===== src/Network/Inventory/Interleaved.antt =====
-- An object is in flight from one peer at a time, whatever else is done with the inventory.
use bitclone.Base.{
  ℕ, ◌+◌, ◌≡◌, ◌≢◌, ◌<◌, refl, ap, sym, ◌∙◌, true, false, List, some, arith, Bool-cases,
  Option-cases, inl, inr,
}
use mathlib.Core.Path.{subst}
use bitclone.Base.Dict.{lookup, contains, lookup-insert-other, lookup-drop_key-other}
use bitclone.Network.Peer.{PeerKey, peer_eq, peer_eq→eq}
use bitclone.Network.Inventory.{
  InvVector, InventoryKey, key_eq, inventory_key, InventoryRequest, InflightInventory, has_expired,
  expire_locked, claim, claim_key, contains_vector, release, release_key, release_peer,
}
use bitclone.Network.Inventory.Exclusive.{
  key_eq→eq, lookup-without, claim-key, claim-found, claim_key_lem,
}

-- The calls that leave a request of `owner` for `key` alone, before its `deadline`: claims and
-- lookups of any object by any peer, releases of other objects, and of other peers.
pub data Step (key : InventoryKey) (owner : PeerKey) (deadline : ℕ)
    : InflightInventory → InflightInventory → Type 0 where
  claimed :
      (now : ℕ) (vector : InvVector) (peer : PeerKey) (s : InflightInventory)
      → now < deadline
      → Step key owner deadline s (claim now vector peer s).1
  looked_up :
      (now : ℕ) (vector : InvVector) (s : InflightInventory)
      → now < deadline
      → Step key owner deadline s (contains_vector now vector s).1
  expired :
      (now : ℕ) (s : InflightInventory)
      → now < deadline
      → Step key owner deadline s (expire_locked now s).1
  released :
      (vector : InvVector) (s : InflightInventory)
      → inventory_key vector ≢ some key
      → Step key owner deadline s (release vector s).1
  released_key :
      (k : InventoryKey) (s : InflightInventory)
      → k ≢ key
      → Step key owner deadline s (release_key k s).1
  released_peer :
      (peer : PeerKey) (s : InflightInventory)
      → owner ≢ peer
      → Step key owner deadline s (release_peer peer s).1

pub data Steps (key : InventoryKey) (owner : PeerKey) (deadline : ℕ)
    : InflightInventory → InflightInventory → Type 0 where
  here : (s : InflightInventory) → Steps key owner deadline s s
  after :
      (s t u : InflightInventory)
      → Steps key owner deadline s t
      → Step key owner deadline t u
      → Steps key owner deadline s u

differs_lem : (j k : InventoryKey) → j ≢ k → key_eq j k ≡ false
differs_lem j k differs = elim (Bool-cases (key_eq j k)) [
  | inl e ↦ absurd (differs (key_eq→eq j k e))
  | inr e ↦ e
]

found_lem :
    (j k : InventoryKey) (r : InventoryRequest) (d : List (InventoryKey × InventoryRequest))
    → lookup key_eq j d ≡ some r
    → j ≡ k
    → contains key_eq k d ≢ false
found_lem j k r d found same missing =
    let moved : lookup key_eq k d ≡ some r = subst (λ x. lookup key_eq x d ≡ some r) same found in
    ground (arith, moved, missing)

module _ (key : InventoryKey) (owner : PeerKey) (deadline : ℕ) where
  -- The request is there, and stands until the deadline.
  abbrev Held : InflightInventory → Type 0
  Held s =
      (r : InventoryRequest) × (lookup key_eq key s.requests ≡ some r)
      × (r.peer_key ≡ owner)
      × (r.requested_at + s.timeout ≡ deadline)

  expire-Held :
      (now : ℕ) (s : InflightInventory) → now < deadline → Held s → Held (expire_locked now s).1
  unfolding expire_locked has_expired
  expire-Held now s early (r, found, own, until) = (
    r,
    lookup-without (has_expired now s.timeout) key r s.requests found
        (ground (arith, early, until)),
    own,
    until,
  )

  claim_key-Held :
      (now : ℕ) (vector : InvVector) (peer : PeerKey) (k : InventoryKey) (s : InflightInventory)
      → now < deadline
      → Held s
      → Held (claim_key now vector peer k s).1
  unfolding claim_key
  claim_key-Held now vector peer k s early h =
      let (r, found, own, until) = expire-Held now s early h in
      elim (Bool-cases (contains key_eq k (expire_locked now s).1.requests)) [
        | inl c ↦ rw (c, claim_key) (r, found, own, until)
        | inr c ↦
            rw (c, claim_key)
              (
                r,
                lookup-insert-other key_eq key_eq→eq key k _ _
                      (differs_lem key k (λ same. found_lem key k r _ found same c))
                    ∙ found,
                own,
                until,
              )
      ]

  release_key-Held :
      (k : InventoryKey) (s : InflightInventory) → k ≢ key → Held s → Held (release_key k s).1
  unfolding release_key
  release_key-Held k s differs (r, found, own, until) = (
    r,
    lookup-drop_key-other key_eq key_eq→eq key k s.requests
          (differs_lem key k (λ same. differs (sym same)))
        ∙ found,
    own,
    until,
  )

  Step-Held : (s t : InflightInventory) → Step key owner deadline s t → Held s → Held t
  unfolding claim contains_vector release release_peer
  Step-Held s t (Step.claimed now vector peer _ early) h =
      elim (Option-cases (inventory_key vector)) [
        | inl e ↦ rw (e, claim) h
        | inr (k, e) ↦ rw (e, claim) (claim_key-Held now vector peer k s early h)
      ]
  Step-Held s t (Step.looked_up now vector _ early) h = elim (Option-cases (inventory_key vector)) [
    | inl e ↦ rw (e, contains_vector) h
    | inr (k, e) ↦ rw (e, contains_vector) (expire-Held now s early h)
  ]
  Step-Held s t (Step.expired now _ early) h = expire-Held now s early h
  Step-Held s t (Step.released vector _ differs) h = elim (Option-cases (inventory_key vector)) [
    | inl e ↦ rw (e, release) h
    | inr (k, e) ↦ rw (e, release) (release_key-Held k s (λ same. differs (e ∙ ap some same)) h)
  ]
  Step-Held s t (Step.released_key k _ differs) h = release_key-Held k s differs h
  Step-Held s t (Step.released_peer peer _ differs) (r, found, own, until) = (
    r,
    lookup-without (λ q. peer_eq q.peer_key peer) key r s.requests found
        (elim (Bool-cases (peer_eq r.peer_key peer)) [
          | inl e ↦ absurd (differs (sym own ∙ peer_eq→eq r.peer_key peer e))
          | inr e ↦ e
        ]),
    own,
    until,
  )

  Steps-Held : (s t : InflightInventory) → Steps key owner deadline s t → Held s → Held t
  Steps-Held s t (Steps.here _) h = h
  Steps-Held s t (Steps.after _ u _ before step) h = Step-Held u t step (Steps-Held s u before h)

-- Once a claim is granted, no peer can claim the same object, under any of its inventory types, as
-- long as less than the timeout has passed and neither the object nor the peer that was granted it
-- is released, whatever objects are claimed, looked up and released, and whatever other peers are
-- released, in between.
pub claim_is_exclusive :
    (now later : ℕ) (vector vector' : InvVector) (peer_key peer_key' : PeerKey) (key : InventoryKey)
    (s t : InflightInventory)
    → inventory_key vector ≡ some key
    → inventory_key vector' ≡ some key
    → (claim now vector peer_key s).0 ≡ true
    → Steps key peer_key (now + s.timeout) (claim now vector peer_key s).1 t
    → later < now + s.timeout
    → (claim later vector' peer_key' t).0 ≡ false
unfolding has_expired
claim_is_exclusive now later vector vector' peer_key peer_key' key s t k k' h steps l =
    let (found, limit) =
      claim_key_lem now vector peer_key key s (rw⁻¹ (claim-key now vector peer_key key s k) h) in
    let granted : Held key peer_key (now + s.timeout) (claim now vector peer_key s).1 =
      rw (claim-key now vector peer_key key s k) (_, found, refl, ap (λ n. now + n) limit) in
    let (r, there, own, until) = Steps-Held key peer_key (now + s.timeout) _ t steps granted in
    claim-found later vector' peer_key' key r t k' there (ground (arith, l, until))
