-- ===== src/Script.antt =====
-- script/: numbers, the stack, the opcodes, the parser and the engine of Bitcoin Script.
pub mod Num
pub mod Stack
pub mod StackOps
pub mod Numeric
pub mod OpcodeMap
pub mod Parser
pub mod Instruction
pub mod Conditional
