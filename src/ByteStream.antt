-- ===== src/ByteStream.antt =====
-- core/byte_stream.py: a BytesIO is the list of the bytes that are not yet read.
mod Streams
pub mod Writer
pub mod RoundTrip
pub use Streams.*
use bitclone.Base.{
  ℕ, zero, suc, List, ◌+◌, ◌≤◌, Result, Error, ok, err, ltb, leb, ◌==◌, if◌then◌else◌, [], ◌∷◌,
  ◌++◌, length, take, drop,
}
use bitclone.Base.Bytes.{Bytes, from_le, from_be}

-- `read_stream`: `stream.read(length)` gives what is left if that is less, which is refused.
unfoldable pub read_stream : ℕ → Parser Bytes
read_stream n s = if length (take n s) == n then ok (take n s, drop n s) else err Error.read_error

unfoldable pub read_little_int : ℕ → Parser ℕ
read_little_int n = do bs ← read_stream n; pure (from_le bs)

unfoldable pub read_big_int : ℕ → Parser ℕ
read_big_int n = do bs ← read_stream n; pure (from_be bs)

-- The cases of `read_compact_size` on its prefix.
unfoldable pub compact_size_rest : ℕ → Parser ℕ
compact_size_rest prefix =
    if leb prefix 0xfc
    then pure prefix
    else if prefix == 0xfd
    then read_little_int 2
    else if prefix == 0xfe
    then read_little_int 4
    else if prefix == 0xff
    then read_little_int 8
    else raise Error.read_error

unfoldable pub read_compact_size : Parser ℕ
read_compact_size = do prefix ← read_little_int 1; compact_size_rest prefix

unfoldable pub deserialize_data : Parser Bytes
deserialize_data = do datalen ← read_compact_size; read_stream datalen

-- `for _ in range(n)`, reading one value each time.
abbrev pub read_many : {A : Type 0} → ℕ → Parser A → Parser (List A)
read_many zero p = pure []
read_many (suc n) p = do x ← p; xs ← read_many n p; pure (x ∷ xs)
