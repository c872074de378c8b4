-- ===== src/Tests/Chain.antt =====
-- The index of headers and the parameters of the chain at concrete inputs.
use bitclone.Base.{
  ◌≡◌, ◌⊎◌, ◌↔◌, inl, refl, ok, err, Error, true, false, List, [], ◌∷◌, none, some, replicate,
  reverse, arith,
}
use bitclone.Base.Bytes.{int_to_be, int_to_le}
use bitclone.Block.Header
use bitclone.Block.Header.{BlockHeader}
use bitclone.Data.TargetBits.{bits_to_target, expand}
use bitclone.Chain.Params.{consensus_script_flags, standard_script_flags}
use bitclone.Chain.Params.Flags.{FlagsAre, script_flags-FlagsAre}
use bitclone.Chain.Networks.{regtest_chain_params, mainnet_chain_params}
use bitclone.Chain.Difficulty.{validate_header_pow, check_target, meets_target, is_canonical}
use bitclone.Chain.Difficulty.Pow.{IsMined, validate_header_pow-IsMined}
use bitclone.Chain.Index.{Index, BlockIndexEntry, BlockStatus, get_block_index, put_entry}
use bitclone.Chain.Index.Headers.{add_headers}
use bitclone.Chain.Index.Linked.{IsLinked, fresh-IsLinked}
use bitclone.Chain.Index.Grows.{Grows, add_headers-Grows}
use bitclone.Chain.Index.Paths.{reorganization_paths, get_block_locator, start_entry}
use bitclone.Chain.Index.Paths.Ancestors.{IsRooted, Descends, IsApart}
use bitclone.Chain.Index.Paths.Meet.{reorganization_paths-meet}
use bitclone.Chain.Index.Paths.Locate.{Locates, get_block_locator-Locates}
use bitclone.Tests.Blocks.{short_hash}

abbrev header : BlockHeader
header = record {
  version = 1;
  prev_block = replicate 32 0;
  merkle_root = replicate 32 4;
  timestamp = 7;
  bits = 0x1d ∷ 0x00 ∷ 0xff ∷ 0xff ∷ [];
  nonce = 3;
}

header_accepted : validate_header_pow short_hash header ≡ ok true
unfolding validate_header_pow check_target meets_target is_canonical bits_to_target expand
    Header.block_id Header.to_bytes int_to_be int_to_le
header_accepted = refl

validate_header_pow-IsMined_example :
    (validate_header_pow short_hash header ≡ ok true) ↔ IsMined short_hash header
validate_header_pow-IsMined_example =
    validate_header_pow-IsMined short_hash header
      (omega arith, (omega arith, (omega arith, (omega arith, tt))))

abbrev first : BlockIndexEntry
first = record {
  block_hash = replicate 32 0;
  prev_hash = replicate 32 9;
  height = 0;
  bits = header.bits;
  timestamp = 1;
  work = 10;
  chainwork = 10;
  active = true;
  status = BlockStatus.valid;
}

abbrev second : BlockIndexEntry
second = record {
  block_hash = replicate 32 1;
  prev_hash = replicate 32 0;
  height = 1;
  bits = header.bits;
  timestamp = 2;
  work = 10;
  chainwork = 20;
  active = true;
  status = BlockStatus.valid;
}

abbrev other : BlockIndexEntry
other = record second {
  block_hash = replicate 32 2;
  active = false;
  status = BlockStatus.candidate;
}

abbrev three_rows : Index
three_rows = first ∷ second ∷ other ∷ []

first-IsLinked : IsLinked (first ∷ [])
unfolding get_block_index
first-IsLinked hash e h = inl (ground (arith, h))

three_rows-IsLinked : IsLinked three_rows
unfolding get_block_index put_entry
three_rows-IsLinked =
    fresh-IsLinked other first (first ∷ second ∷ [])
      (fresh-IsLinked second first (first ∷ []) first-IsLinked refl refl refl refl) refl refl refl
      refl

three_rows-IsRooted : IsRooted three_rows
unfolding get_block_index
three_rows-IsRooted hash e h z = ground (arith, h, z)

add_headers-Grows_example :
    Grows short_hash
      (first ∷ [])
      (add_headers short_hash regtest_chain_params 9 (header ∷ []) (first ∷ []))
add_headers-Grows_example =
    add_headers-Grows short_hash regtest_chain_params 9 (header ∷ []) (first ∷ []) first-IsLinked

reorganization_paths-meet_example :
    ((reorganization_paths second other three_rows ≡ err Error.network_data_error)
      × IsApart three_rows second other)
    ⊎ ((disconnect connect : List BlockIndexEntry) × (fork : BlockIndexEntry)
        × (reorganization_paths second other three_rows ≡ ok (disconnect, connect, fork))
        × Descends three_rows disconnect second fork
        × Descends three_rows (reverse connect) other fork)
unfolding get_block_index
reorganization_paths-meet_example =
    reorganization_paths-meet three_rows second other three_rows-IsLinked three_rows-IsRooted refl
      refl

get_block_locator-Locates_example :
    Locates three_rows (get_block_locator (some (replicate 32 2)) three_rows) other
unfolding get_block_index start_entry
get_block_locator-Locates_example =
    get_block_locator-Locates (some (replicate 32 2)) other three_rows three_rows-IsLinked refl refl

script_flags-FlagsAre_example :
    FlagsAre false true true true false
      (consensus_script_flags mainnet_chain_params 600_000 (some 1_000) none)
    × FlagsAre false true true true false
        (standard_script_flags mainnet_chain_params 600_000 (some 1_000) none)
unfolding mainnet_chain_params
script_flags-FlagsAre_example =
    script_flags-FlagsAre mainnet_chain_params 600_000 (some 1_000) none refl
