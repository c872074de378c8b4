-- ===== src/Lib.antt =====
-- Verification of the parts of bitclone that decide what a transaction, a block, a script and a peer
-- may do.
--
-- bitclone is a Bitcoin node in Python. Bytes come in through core/byte_stream.py; tx/tx.py reads them
-- as transactions and writes them back; tx/validation.py decides which are accepted, calling the
-- script engine of script/ for their scripts; mempool/orphan_pool.py keeps those whose parents are
-- missing; data/merkle_trees.py ties the identifiers of a block together, which block/block.py reads
-- and writes. blockchain/blockchain.py connects blocks: it changes the tables of database/database.py,
-- the unspent outputs and the index of headers, by the rules of core/chainparams.py. network/ frames
-- the messages and keeps the state of peers, of header synchronization and of the objects asked for;
-- what a header message holds goes to the chain's add_headers.
--
-- Files, and the code that they model:
--   Base            Python's values: exceptions as Result, int.to_bytes, int.from_bytes, dicts and sets
--   Formats         src/core/formats.py, the constants in use
--   ByteStream      src/core/byte_stream.py: a BytesIO is the list of its unread bytes
--   Tx              src/tx/tx.py: TxIn, TxOut, Witness, UTXO, Tx (Transaction, Reader), LoadedTx (Loaded)
--   Tx/Validation   src/tx/validation.py: validate_loaded_tx and the checks it calls
--   Merkle          src/data/merkle_trees.py: MerkleTree
--   Block           src/block/block.py: BlockHeader (Header), Block (Body, Reader)
--   Data/TargetBits src/data/target_bits.py
--   Chain/Params, Chain/Networks
--                   src/core/chainparams.py
--   Chain/Utxos     src/database/database.py: the table utxos
--   Chain/Undo      src/blockchain/blockchain.py: undo records, UTXO deltas and the check of BIP 30
--   Chain/Index     src/database/database.py: the table block_index; Headers and Paths:
--                   src/blockchain/blockchain.py: add_headers, _reorganization_paths, get_block_locator
--   Chain/Subsidy, Chain/Difficulty
--                   src/blockchain/blockchain.py: subsidies, retargets and proof of work
--   Script/Num      src/script/stack.py: BitNum; Script/Stack: BitStack
--   Script/StackOps, Script/Numeric, Script/OpcodeMap
--                   src/script/opcodes and src/script/opcode_map.py, one function per opcode
--   Script/Parser   src/script/parser.py: parse_script_ops
--   Script/Instruction
--                   src/script/script_engine.py: _read_instructions
--   Script/Conditional
--                   src/script/script_engine.py: _select_conditional_branch and what it calls
--   Mempool         src/mempool/orphan_pool.py: OrphanTransactionPool
--   Network         src/network/peer_discipline.py, header_sync.py, inventory.py and keepalive.py
--   Network/Framing src/network/messages/header.py and message.py
--   Network/Payloads
--                   src/network/messages/data_msg.py and src/network/datatypes/network_data.py
--   Network/Messages
--                   src/network/messages/ctrl_msg.py and cf_msg.py
--   Tests           runs of the definitions and of the theorems at concrete inputs
--
-- A method of an object takes the object's state and returns its result with the state that it leaves;
-- an exception is an error value (Base/Errors), and a method of the stack says also what it leaves
-- behind when it raises. Byte strings are lists of natural numbers, integers are natural where the
-- code's are never negative and ℤ in scripts. A dict is a list of pairs in the order of insertion.
--
-- A table of the database is the list of its rows under a primary key; a transaction of the database
-- that fails leaves the table as it was, so an error carries no table, except in add_headers, which
-- commits header by header.
--
-- Loops follow the lists that they run over. Some run on fuel: parse_script_ops and
-- _parse_conditional_block take at most one round for each byte of the script, and one to see its
-- end; OrphanTransactionPool.add takes one for each entry of the pool and one more, after which the
-- newest transaction alone is left and fits. The walks from a row of the block index to its ancestors
-- take at most as many rounds as its height, which falls by one each time.
--
-- Parameters: the digests of hashlib (Hashes, and hash256 of trees and identifiers), the chain that
-- a header synchronization fills and the callback that sends its messages, the normalization of host
-- names by Python's library, and the script validator of a validation context. Clocks are arguments.
--
-- Not modelled: the execution loop of the engine and the signature operations, the checks of a whole
-- block but those named above, the files of block bodies, the mempool proper, orphan blocks, the
-- messages with network addresses and texts. Nor
-- display and JSON, locks and threads, sockets, the HTTP interface, the wallet's files.
pub mod Base
pub mod Formats
pub mod Block
pub mod ByteStream
pub mod Tx
pub mod Merkle
pub mod Data
pub mod Chain
pub mod Script
pub mod Mempool
pub mod Network
pub mod Tests
