-- ===== src/ByteStream/Writer.antt =====
-- core/byte_stream.py, the writers, and `b''.join(parts)` over parts that may raise.
use bitclone.Base.{
  ℕ, ◌+◌, Result, Error, ok, err, ◌>>=◌, leb, ltb, if◌then◌else◌, List, [], ◌∷◌, ◌++◌, length,
  length-append, ◌≡◌, refl, arith,
}
use bitclone.Base.Bytes.{Bytes, int_to_le}

-- Two parts of a join, evaluated from left to right.
infixr 6 ◌<+>◌
abbrev pub ◌<+>◌ : Result Bytes → Result Bytes → Result Bytes
w <+> w' = do xs ← w; ys ← w'; ok (xs ++ ys)

-- DATA.MAX_COMPACTSIZE
abbrev pub max_compactsize : ℕ
max_compactsize = 0xffff_ffff_ffff_ffff

unfoldable pub write_compact_size : ℕ → Result Bytes
write_compact_size num =
    if ltb max_compactsize num
    then err Error.write_error
    else if leb num 0xfc
    then int_to_le 1 num
    else if leb num 0xffff
    then ok (0xfd ∷ []) <+> int_to_le 2 num
    else if leb num 0xffff_ffff
    then ok (0xfe ∷ []) <+> int_to_le 4 num
    else ok (0xff ∷ []) <+> int_to_le 8 num

unfoldable pub serialize_data : Bytes → Result Bytes
serialize_data item = write_compact_size (length item) <+> ok item

-- `b''.join([...])` over a list of parts.
abbrev pub join_all : List (Result Bytes) → Result Bytes
join_all [] = ok []
join_all (w ∷ ws) = w <+> join_all ws

-- The sum of the `length` properties of the parts.
abbrev pub total_length : List (Result Bytes) → Result ℕ
total_length [] = ok 0
total_length (w ∷ ws) = do bs ← w; n ← total_length ws; ok (length bs + n)

-- A join that returned, by its two parts.
pub <+>-eq-ok :
    (w w' : Result Bytes) {bs : Bytes}
    → (w <+> w') ≡ ok bs
    → (xs : Bytes) × (ys : Bytes) × (w ≡ ok xs) × (w' ≡ ok ys) × (bs ≡ xs ++ ys)
<+>-eq-ok (ok xs) (ok ys) h = (xs, ys, refl, refl, ground arith)
<+>-eq-ok (ok xs) (err e) h = cc
<+>-eq-ok (err e) w' h = cc

pub total_length-join_all :
    (ws : List (Result Bytes)) {bs : Bytes} → join_all ws ≡ ok bs → total_length ws ≡ ok (length bs)
total_length-join_all [] h = ground arith
total_length-join_all (w ∷ ws) h =
    let (xs, ys, ex, ey, e) = <+>-eq-ok w (join_all ws) h in
    ground (arith, total_length-join_all ws ey, length-append xs ys)
