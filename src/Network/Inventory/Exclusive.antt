-- ===== src/Network/Inventory/Exclusive.antt =====
-- What a claim finds, and what it leaves.
use bitclone.Base.{
  ℕ, ◌≡◌, refl, ap, Bool, true, false, List, [], ◌∷◌, none, some, arith, Bool-cases, inl, inr,
}
use bitclone.Base.Bytes.{bytes_eq→eq, bytes_eq_refl}
use bitclone.Base.Dict.{lookup, contains, lookup-insert-same, lookup-drop_key-same}
use bitclone.Network.Peer.{PeerKey}
use bitclone.Network.Inventory.{
  InvVector, InventoryKind, InventoryKey, key_eq, inventory_key, InventoryRequest,
  InflightInventory, has_expired, without, expire_locked, claim, claim_key, release, release_key,
}

pub key_eq→eq : (a b : InventoryKey) → key_eq a b ≡ true → a ≡ b
key_eq→eq (InventoryKind.tx, h) (InventoryKind.tx, i) e =
    ap (λ x. (InventoryKind.tx, x)) (bytes_eq→eq h i e)
key_eq→eq (InventoryKind.tx, h) (InventoryKind.block, i) e = ground arith
key_eq→eq (InventoryKind.block, h) (InventoryKind.tx, i) e = ground arith
key_eq→eq (InventoryKind.block, h) (InventoryKind.block, i) e =
    ap (λ x. (InventoryKind.block, x)) (bytes_eq→eq h i e)

pub key_eq_refl : (a : InventoryKey) → key_eq a a ≡ true
key_eq_refl (InventoryKind.tx, h) = bytes_eq_refl h
key_eq_refl (InventoryKind.block, h) = bytes_eq_refl h

-- A request that is not dropped is still found.
pub lookup-without :
    (drops : InventoryRequest → Bool) (key : InventoryKey) (request : InventoryRequest)
    (requests : List (InventoryKey × InventoryRequest))
    → lookup key_eq key requests ≡ some request
    → drops request ≡ false
    → lookup key_eq key (without drops requests) ≡ some request
unfolding without
lookup-without drops key request [] h d = ground arith
lookup-without drops key request ((k, r) ∷ requests) h d =
    ground (arith, h, d, lookup-without drops key request requests)

without-none :
    (drops : InventoryRequest → Bool) (key : InventoryKey)
    (requests : List (InventoryKey × InventoryRequest))
    → lookup key_eq key requests ≡ none
    → lookup key_eq key (without drops requests) ≡ none
unfolding without
without-none drops key [] h = refl
without-none drops key ((k, r) ∷ requests) h = ground (arith, h, without-none drops key requests)

contains-some :
    (key : InventoryKey) (request : InventoryRequest)
    (requests : List (InventoryKey × InventoryRequest))
    → lookup key_eq key requests ≡ some request
    → contains key_eq key requests ≡ true
contains-some key request requests h = rw (h, contains) refl

contains-none :
    (key : InventoryKey) (requests : List (InventoryKey × InventoryRequest))
    → lookup key_eq key requests ≡ none
    → contains key_eq key requests ≡ false
contains-none key requests h = rw (h, contains) refl

pub claim-key :
    (now : ℕ) (vector : InvVector) (peer_key : PeerKey) (key : InventoryKey) (s : InflightInventory)
    → inventory_key vector ≡ some key
    → claim now vector peer_key s ≡ claim_key now vector peer_key key s
unfolding claim
claim-key now vector peer_key key s k = rw (k, claim) refl

-- While the request for an object has not timed out, no peer can claim the object.
pub claim-found :
    (now : ℕ) (vector : InvVector) (peer_key : PeerKey) (key : InventoryKey)
    (request : InventoryRequest) (s : InflightInventory)
    → inventory_key vector ≡ some key
    → lookup key_eq key s.requests ≡ some request
    → has_expired now s.timeout request ≡ false
    → (claim now vector peer_key s).0 ≡ false
unfolding claim_key expire_locked
claim-found now vector peer_key key request s k l e = rw (claim-key now vector peer_key key s k) (
    rw
      (
        contains-some key request _
            (lookup-without (has_expired now s.timeout) key request s.requests l e),
        claim_key,
      )
      refl)

claim-free :
    (now : ℕ) (vector : InvVector) (peer_key : PeerKey) (key : InventoryKey) (s : InflightInventory)
    → inventory_key vector ≡ some key
    → lookup key_eq key s.requests ≡ none
    → (claim now vector peer_key s).0 ≡ true
unfolding claim_key expire_locked
claim-free now vector peer_key key s k l = rw (claim-key now vector peer_key key s k) (
    rw (contains-none key _ (without-none (has_expired now s.timeout) key s.requests l), claim_key)
      refl)

pub claim_key_lem :
    (now : ℕ) (vector : InvVector) (peer_key : PeerKey) (key : InventoryKey) (s : InflightInventory)
    → (claim_key now vector peer_key key s).0 ≡ true
    → (lookup key_eq key (claim_key now vector peer_key key s).1.requests
        ≡ some (record { vector = vector; peer_key = peer_key; requested_at = now }))
      × ((claim_key now vector peer_key key s).1.timeout ≡ s.timeout)
unfolding claim_key expire_locked
claim_key_lem now vector peer_key key s h =
    elim (Bool-cases (contains key_eq key (without (has_expired now s.timeout) s.requests))) [
      | inl c ↦ let f : false ≡ true = (rw (c, claim_key) at h) in cc
      | inr c ↦
          rw (c, claim_key) (lookup-insert-same key_eq key_eq→eq key _ _ (key_eq_refl key), refl)
    ]

-- A released object can be claimed again at any time.
release_frees :
    (now : ℕ) (vector vector' : InvVector) (peer_key : PeerKey) (key : InventoryKey)
    (s : InflightInventory)
    → inventory_key vector ≡ some key
    → inventory_key vector' ≡ some key
    → (claim now vector' peer_key (release vector s).1).0 ≡ true
unfolding release release_key
release_frees now vector vector' peer_key key s k k' =
    claim-free now vector' peer_key key _ k'
      (rw (k, release) (lookup-drop_key-same key_eq key_eq→eq key s.requests))
