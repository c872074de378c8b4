-- ===== src/Network/Inventory.antt =====
-- network/inventory.py, class InflightInventory. Times are natural: `now` is what the clock says.
pub mod Exclusive
pub mod Interleaved
use bitclone.Base.{
  ℕ, ◌+◌, ◌-◌, Bool, true, false, ◌&&◌, ◌||◌, List, [], ◌∷◌, ◌++◌, Option, none, some, length, leb,
  ◌==◌, if◌then◌else◌,
}
use bitclone.Base.Bytes.{Bytes, bytes_eq}
use bitclone.Base.Dict.{lookup, drop_key, insert, contains}
use bitclone.Network.Peer.{PeerKey, peer_eq}

-- `inv_type` is the number of the InvType.
pub record InvVector : Type 0 where
  pub inv_type : ℕ
  pub obj_hash : Bytes

pub data InventoryKind : Type 0 where
  tx block : InventoryKind

abbrev pub InventoryKey : Type 0
InventoryKey = InventoryKind × Bytes

abbrev pub kind_eq : InventoryKind → InventoryKind → Bool
kind_eq InventoryKind.tx InventoryKind.tx = true
kind_eq InventoryKind.block InventoryKind.block = true
kind_eq _ _ = false

abbrev pub key_eq : InventoryKey → InventoryKey → Bool
key_eq (k, h) (l, i) = kind_eq k l && bytes_eq h i

-- `TX_INVENTORY_TYPES` and `BLOCK_INVENTORY_TYPES`.
unfoldable pub is_tx_type : ℕ → Bool
is_tx_type t = (t == 0x01) || (t == 0x4000_0001)

unfoldable pub is_block_type : ℕ → Bool
is_block_type t =
    (t == 0x02) || (t == 0x03) || (t == 0x04) || (t == 0x4000_0002) || (t == 0x4000_0003)

unfoldable pub inventory_key : InvVector → Option InventoryKey
inventory_key vector =
    if is_tx_type vector.inv_type
    then some (InventoryKind.tx, vector.obj_hash)
    else if is_block_type vector.inv_type
    then some (InventoryKind.block, vector.obj_hash)
    else none

pub record InventoryRequest : Type 0 where
  pub vector : InvVector
  pub peer_key : PeerKey
  pub requested_at : ℕ

pub record InflightInventory : Type 0 where
  pub timeout : ℕ
  pub requests : List (InventoryKey × InventoryRequest)

-- `now - request.requested_at >= self.timeout`
unfoldable pub has_expired : ℕ → ℕ → InventoryRequest → Bool
has_expired now timeout request = leb (request.requested_at + timeout) now

-- The requests that stay, in `_expire_locked` and in `release_peer`.
unfoldable pub without :
    (InventoryRequest → Bool)
    → List (InventoryKey × InventoryRequest)
    → List (InventoryKey × InventoryRequest)
without drops [] = []
without drops ((key, request) ∷ requests) =
    let rest = without drops requests in if drops request then rest else (key, request) ∷ rest

unfoldable pub expire_locked : ℕ → InflightInventory → ℕ × InflightInventory
expire_locked now s =
    let kept = without (has_expired now s.timeout) s.requests in
    (length s.requests - length kept, record s { requests = kept })

-- `claim` of a known key.
unfoldable pub claim_key :
    ℕ → InvVector → PeerKey → InventoryKey → InflightInventory → Bool × InflightInventory
claim_key now vector peer_key key s =
    let s' = (expire_locked now s).1 in
    if contains key_eq key s'.requests then (false, s') else (
      true,
      record s' {
        requests =
            insert key_eq key (record { vector = vector; peer_key = peer_key; requested_at = now })
              s'.requests;
      },
    )

unfoldable pub claim : ℕ → InvVector → PeerKey → InflightInventory → Bool × InflightInventory
claim now vector peer_key s = elim (inventory_key vector) [
  | none ↦ (false, s)
  | some key ↦ claim_key now vector peer_key key s
]

-- `contains`, under a name of its own.
unfoldable pub contains_vector : ℕ → InvVector → InflightInventory → Bool × InflightInventory
contains_vector now vector s = elim (inventory_key vector) [
  | none ↦ (false, s)
  | some key ↦ let s' = (expire_locked now s).1 in (contains key_eq key s'.requests, s')
]

unfoldable pub release_key : InventoryKey → InflightInventory → Bool × InflightInventory
release_key key s =
    (contains key_eq key s.requests, record s { requests = drop_key key_eq key s.requests })

unfoldable pub release : InvVector → InflightInventory → Bool × InflightInventory
release vector s = elim (inventory_key vector) [ none ↦ (false, s) | some key ↦ release_key key s ]

unfoldable pub release_peer : PeerKey → InflightInventory → ℕ × InflightInventory
release_peer peer_key s =
    let kept = without (λ request. peer_eq request.peer_key peer_key) s.requests in
    (length s.requests - length kept, record s { requests = kept })
