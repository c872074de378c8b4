-- ===== src/Chain/Params/Flags.antt =====
-- Which script checks are on at a height.
use bitclone.Base.{
  ℕ, ◌≡◌, Bool, true, Option, none, some, leb, if◌then◌else◌, bit_or, bit_and, arith,
}
use bitclone.Base.Bytes.{Bytes}
use bitclone.Chain.Params.{
  ChainParams, p2sh, dersig, checklocktimeverify, witness, taproot, standard_policy_flags,
  flags_from, exception_flags, consensus_script_flags, standard_script_flags,
}

-- `flag` is on in `flags` exactly if `holds`.
abbrev pub OnIf : Bool → ℕ → ℕ → Type 0
OnIf holds flag flags = bit_and flags flag ≡ (if holds then flag else 0)

abbrev pub FlagsAre : Bool → Bool → Bool → Bool → Bool → ℕ → Type 0
FlagsAre bip16 bip66 bip65 segwit tap flags =
    OnIf bip16 p2sh flags
    × OnIf bip66 dersig flags
    × OnIf bip65 checklocktimeverify flags
    × OnIf segwit witness flags
    × OnIf tap taproot flags

flags_from-FlagsAre :
    (bip16 bip66 bip65 segwit tap : Bool)
    → FlagsAre bip16 bip66 bip65 segwit tap (flags_from bip16 bip66 bip65 segwit tap)
      × FlagsAre bip16 bip66 bip65 segwit tap
          (bit_or (flags_from bip16 bip66 bip65 segwit tap) standard_policy_flags)
unfolding flags_from standard_policy_flags
flags_from-FlagsAre bip16 bip66 bip65 segwit tap = ground arith

-- For a block that is no exception, each consensus check but P2SH is on exactly from the height at
-- which the network activates it, and P2SH is on exactly if the time of the block is unknown or not
-- before its activation; the flags of standard policy have the same consensus checks on.
pub script_flags-FlagsAre :
    (params : ChainParams) (height : ℕ) (block_time : Option ℕ) (block_hash : Option Bytes)
    → exception_flags params block_hash ≡ none
    → FlagsAre
        (elim block_time [ none ↦ true | some time ↦ leb params.bip16_activation_time time ])
        (leb params.bip66_height height)
        (leb params.bip65_height height)
        (leb params.segwit_height height)
        (leb params.taproot_height height)
        (consensus_script_flags params height block_time block_hash)
      × FlagsAre
          (elim block_time [ none ↦ true | some time ↦ leb params.bip16_activation_time time ])
          (leb params.bip66_height height)
          (leb params.bip65_height height)
          (leb params.segwit_height height)
          (leb params.taproot_height height)
          (standard_script_flags params height block_time block_hash)
unfolding consensus_script_flags standard_script_flags
script_flags-FlagsAre params height none block_hash none_there =
    rw (none_there, consensus_script_flags, standard_script_flags)
      (flags_from-FlagsAre true (leb params.bip66_height height) (leb params.bip65_height height)
        (leb params.segwit_height height) (leb params.taproot_height height))
script_flags-FlagsAre params height (some time) block_hash none_there =
    rw (none_there, consensus_script_flags, standard_script_flags)
      (flags_from-FlagsAre (leb params.bip16_activation_time time) (leb params.bip66_height height)
        (leb params.bip65_height height) (leb params.segwit_height height)
        (leb params.taproot_height height))
