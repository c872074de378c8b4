-- ===== src/Formats/TxSize.antt =====
-- core/formats.py, class TX, and UTXO_SERIAL, whose first three fields have the sizes of TX.
use bitclone.Base.{ℕ}

abbrev pub txid : ℕ
txid = 32

abbrev pub vout : ℕ
vout = 4

abbrev pub sequence : ℕ
sequence = 4

abbrev pub amount : ℕ
amount = 8

abbrev pub version : ℕ
version = 4

abbrev pub locktime : ℕ
locktime = 4

abbrev pub markerflag : ℕ
markerflag = 2

abbrev pub outpoint : ℕ
outpoint = 36

-- UTXO_SERIAL.HEIGHT
abbrev pub height : ℕ
height = 4

-- UTXO_SERIAL.IS_COINBASE
abbrev pub is_coinbase : ℕ
is_coinbase = 1
