-- ===== src/Chain/Subsidy.antt =====
-- blockchain/blockchain.py: the subsidy of a block, and how many coins all of them make.
pub mod Supply
use bitclone.Base.{
  ℕ, zero, suc, ◌+◌, ◌*◌, ◌/◌, ◌%◌, ◌^◌, ◌≤◌, ◌<◌, ◌≡◌, refl, leb, if◌then◌else◌, arith,
}
use bitclone.Base.Int.{ℤ, pos, negsuc}

abbrev pub halving_interval : ℕ
halving_interval = 210_000

abbrev pub initial_subsidy : ℕ
initial_subsidy = 5_000_000_000

-- `max(0, height // HALVING_INTERVAL)`: an empty chain has the height -1.
unfoldable pub halvings : ℤ → ℕ
halvings (pos height) = height / halving_interval
halvings (negsuc _) = 0

-- `INITIAL_SUBSIDY >> halvings`, and 0 from the 64th halving on.
unfoldable pub subsidy_after : ℕ → ℕ
subsidy_after n = if leb 64 n then 0 else initial_subsidy / 2 ^ n

unfoldable pub calc_subsidy : ℤ → ℕ
calc_subsidy height = subsidy_after (halvings height)

-- `self._height` while the block at `next_height` is validated.
unfoldable pub height_before : ℕ → ℤ
height_before zero = negsuc 0
height_before (suc h) = pos h

-- `self._block_subsidy` then: `_set_cached_tip` set it with the height, and the constructor does.
unfoldable pub block_subsidy : ℕ → ℕ
block_subsidy next_height = calc_subsidy (height_before next_height)
