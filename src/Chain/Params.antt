-- ===== src/Chain/Params.antt =====
-- core/chainparams.py. A flag of `ScriptVerifyFlag` is the number that the IntFlag gives it, and a
-- mapping is the list of its pairs.
pub mod Flags
use bitclone.Base.{ℕ, Bool, true, false, List, Option, none, some, leb, ◌==◌, if◌then◌else◌, bit_or}
use bitclone.Base.Bytes.{Bytes, bytes_eq}
use bitclone.Base.Dict.{lookup}

-- ScriptVerifyFlag
abbrev pub flag_none : ℕ
flag_none = 0

abbrev pub p2sh : ℕ
p2sh = 1

abbrev pub dersig : ℕ
dersig = 2

abbrev pub checklocktimeverify : ℕ
checklocktimeverify = 4

abbrev pub witness : ℕ
witness = 8

abbrev pub taproot : ℕ
taproot = 16

abbrev pub strictenc : ℕ
strictenc = 256

abbrev pub minimaldata : ℕ
minimaldata = 512

abbrev pub nulldummy : ℕ
nulldummy = 1024

abbrev pub cleanstack : ℕ
cleanstack = 2048

unfoldable pub standard_policy_flags : ℕ
standard_policy_flags = bit_or (bit_or (bit_or strictenc minimaldata) nulldummy) cleanstack

pub record ChainParams : Type 0 where
  pub genesis_hash : Bytes
  pub bip16_activation_time : ℕ
  pub bip34_height : ℕ
  pub bip65_height : ℕ
  pub bip66_height : ℕ
  pub segwit_height : ℕ
  pub taproot_height : ℕ
  pub script_flag_exceptions : List (Bytes × ℕ)
  pub bip30_exceptions : List (ℕ × Bytes)
  pub checkpoints : List (ℕ × Bytes)

-- `flags |= flag` under an if.
abbrev pub add_flag : Bool → ℕ → ℕ → ℕ
add_flag holds flag flags = if holds then bit_or flags flag else flags

-- The body of `consensus_script_flags` behind the exceptions.
unfoldable pub flags_from : Bool → Bool → Bool → Bool → Bool → ℕ
flags_from bip16 bip66 bip65 segwit tap = add_flag tap taproot (
    add_flag segwit witness
      (add_flag bip65 checklocktimeverify (add_flag bip66 dersig (add_flag bip16 p2sh flag_none))))

-- `block_hash in self.script_flag_exceptions`, with the flags found there.
abbrev pub exception_flags : ChainParams → Option Bytes → Option ℕ
exception_flags params none = none
exception_flags params (some hash) = lookup bytes_eq hash params.script_flag_exceptions

abbrev pub bip16_holds : ChainParams → Option ℕ → Bool
bip16_holds params none = true
bip16_holds params (some time) = leb params.bip16_activation_time time

unfoldable pub consensus_script_flags : ChainParams → ℕ → Option ℕ → Option Bytes → ℕ
consensus_script_flags params height block_time block_hash =
    elim (exception_flags params block_hash) [
      | some flags ↦ flags
      | none ↦
          flags_from (bip16_holds params block_time) (leb params.bip66_height height)
            (leb params.bip65_height height) (leb params.segwit_height height)
            (leb params.taproot_height height)
    ]

unfoldable pub standard_script_flags : ChainParams → ℕ → Option ℕ → Option Bytes → ℕ
standard_script_flags params height block_time block_hash =
    bit_or (consensus_script_flags params height block_time block_hash) standard_policy_flags

unfoldable pub is_bip30_exception : ChainParams → ℕ → Bytes → Bool
is_bip30_exception params height block_hash = elim (lookup ◌==◌ height params.bip30_exceptions) [
  | none ↦ false
  | some hash ↦ bytes_eq hash block_hash
]

unfoldable pub checkpoint_matches : ChainParams → ℕ → Bytes → Bool
checkpoint_matches params height block_hash = elim (lookup ◌==◌ height params.checkpoints) [
  | none ↦ true
  | some hash ↦ bytes_eq hash block_hash
]
