-- ===== src/Formats/ScriptLimit.antt =====
-- core/formats.py, class SCRIPT.
use bitclone.Base.{ℕ}

-- SCRIPT.MAX_BITNUM
abbrev pub max_bitnum : ℕ
max_bitnum = 4

-- SCRIPT.MAX_STACK
abbrev pub max_stack : ℕ
max_stack = 1000
