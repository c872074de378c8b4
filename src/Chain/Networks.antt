-- ===== src/Chain/Networks.antt =====
-- core/chainparams.py, the parameters of the four networks.
use bitclone.Base.{ℕ, [], ◌∷◌, bit_or}
use bitclone.Base.Bytes.{Bytes, to_le}
use bitclone.Chain.Params.{ChainParams, flag_none, p2sh, witness}

-- `_internal_hash` of a displayed hash, which is read as a number: the bytes from the lowest on.
abbrev pub internal_hash : ℕ → Bytes
internal_hash display_hash = to_le 32 display_hash

abbrev pub mainnet_bip16_exception : Bytes
mainnet_bip16_exception =
    internal_hash 0x00000000000002dc756eebf4f49723ed8d30cc28a5f108eb94b1ba88ac4f9c22

abbrev pub mainnet_taproot_exception : Bytes
mainnet_taproot_exception =
    internal_hash 0x0000000000000000000f14c35b2d841e986ab5441de8c585d5ffe55ea1e395ad

abbrev pub testnet_bip16_exception : Bytes
testnet_bip16_exception =
    internal_hash 0x00000000dd30457c001f4095d208cc1296b0eed002427aa599874af7a432b105

unfoldable pub mainnet_chain_params : ChainParams
mainnet_chain_params = record {
  genesis_hash = internal_hash 0x000000000019d6689c085ae165831e934ff763ae46a2a6c172b3f1b60a8ce26f;
  bip16_activation_time = 1_333_238_400;
  bip34_height = 227_931;
  bip65_height = 388_381;
  bip66_height = 363_725;
  segwit_height = 481_824;
  taproot_height = 709_632;
  script_flag_exceptions =
      (mainnet_bip16_exception, flag_none) ∷ (mainnet_taproot_exception, bit_or p2sh witness) ∷ [];
  bip30_exceptions =
      (91_842, internal_hash 0x00000000000a4d0a398161ffc163c503763b1f4360639393e0e4c8e300e0caec)
      ∷ (91_880, internal_hash 0x00000000000743f190a18c5577a3c2d2a1f610ae9601ac046a38084ccb7cd721)
      ∷ [];
  checkpoints =
      (0, internal_hash 0x000000000019d6689c085ae165831e934ff763ae46a2a6c172b3f1b60a8ce26f)
      ∷ (91_842, internal_hash 0x00000000000a4d0a398161ffc163c503763b1f4360639393e0e4c8e300e0caec)
      ∷ (91_880, internal_hash 0x00000000000743f190a18c5577a3c2d2a1f610ae9601ac046a38084ccb7cd721)
      ∷ (227_931, internal_hash 0x000000000000024b89b42a942fe0d9fea3bb44ab7bd1b19115dd6a759c0808b8)
      ∷ (363_725, internal_hash 0x00000000000000000379eaa19dce8c9b722d46ae6a57c2f1a988119488b50931)
      ∷ (388_381, internal_hash 0x000000000000000004c2b624ed5d7756c508d90fd0da2c7c679febfa6c4735f0)
      ∷ (419_328, internal_hash 0x000000000000000004a1b34462cb8aeebd5799177f7a29cf28f2d1961716b5b5)
      ∷ (481_824, internal_hash 0x0000000000000000001c8018d9cb3b742ef25114f27563e3fc4a1902167f9893)
      ∷ (692_261, mainnet_taproot_exception)
      ∷ [];
}

unfoldable pub testnet_chain_params : ChainParams
testnet_chain_params = record {
  genesis_hash = internal_hash 0x000000000933ea01ad0ee984209779baaec3ced90fa3f408719526f8d77f4943;
  bip16_activation_time = 1_333_238_400;
  bip34_height = 21_111;
  bip65_height = 581_885;
  bip66_height = 330_776;
  segwit_height = 834_624;
  taproot_height = 2_011_968;
  script_flag_exceptions = (testnet_bip16_exception, flag_none) ∷ [];
  bip30_exceptions = [];
  checkpoints = [];
}

unfoldable pub regtest_chain_params : ChainParams
regtest_chain_params = record {
  genesis_hash = internal_hash 0x0f9188f13cb7b2c71f2a335e3a4fc328bf5beb436012afca590b1a11466e2206;
  bip16_activation_time = 0;
  bip34_height = 1;
  bip65_height = 1;
  bip66_height = 1;
  segwit_height = 0;
  taproot_height = 0;
  script_flag_exceptions = [];
  bip30_exceptions = [];
  checkpoints = [];
}

unfoldable pub signet_chain_params : ChainParams
signet_chain_params = record {
  genesis_hash = internal_hash 0x00000008819873e925422c1ff0f99f7cc9bbb232af63a077a480a3633bee1ef6;
  bip16_activation_time = 0;
  bip34_height = 1;
  bip65_height = 1;
  bip66_height = 1;
  segwit_height = 1;
  taproot_height = 0;
  script_flag_exceptions = [];
  bip30_exceptions = [];
  checkpoints = [];
}
