-- ===== src/ByteStream/RoundTrip.antt =====
-- A reader takes back what the writer of the same format wrote, whatever follows it.
use bitclone.Base.{
  ℕ, map, All, ◌≤◌, ◌<◌, ◌≡◌, refl, sym, ap, ◌∙◌, Result, ok, err, >>=-eq-ok, arith, List, [], ◌∷◌,
  ◌++◌, append_assoc, length, take-append, drop-append,
}
use bitclone.Base.Bytes.{Bytes, int_to_le, int_to_le-ok, from_le-to_le, length-to_le}
use bitclone.ByteStream.Streams.{Parser, pure, returning, ◌>>=◌}
use bitclone.ByteStream.Writer.{◌<+>◌, join_all, write_compact_size, serialize_data}
use bitclone.ByteStream.{
  read_stream, read_little_int, read_compact_size, compact_size_rest, deserialize_data, read_many,
}

-- `p` reads exactly `bs`, as `a`.
abbrev pub Reads : {A : Type 0} → Parser A → Bytes → A → Type 0
Reads p bs a = (rest : Bytes) → p (bs ++ rest) ≡ ok (a, rest)

-- Whatever `w` writes, `p` reads back as `a`.
pub record RoundTrips {A : Type 0} (w : Result Bytes) (p : Parser A) (a : A) : Type 0 where
  pub reads : (bs : Bytes) → w ≡ ok bs → Reads p bs a

pub <+>_assoc : (w w' w'' : Result Bytes) → (w <+> w') <+> w'' ≡ w <+> (w' <+> w'')
<+>_assoc (err x) w' w'' = refl
<+>_assoc (ok xs) (err x) w'' = refl
<+>_assoc (ok xs) (ok ys) (err x) = refl
<+>_assoc (ok xs) (ok ys) (ok zs) = ap ok (append_assoc xs ys zs)

-- The parts of a record, read in the order in which they were written.
module _ {A : Type 0} {B : Type 0} where
  pub seq-RoundTrips :
      (w w' : Result Bytes) (p : Parser A) (f : A → Parser B) (a : A) (b : B)
      → RoundTrips w p a
      → RoundTrips w' (f a) b
      → RoundTrips (w <+> w') (p >>= f) b
  seq-RoundTrips w w' p f a b h k = record {
    reads = λ bs e rest.
        let (xs, ex, e') = >>=-eq-ok w _ e in
        let (ys, ey, e'') = >>=-eq-ok w' _ e' in
        ground (arith, append_assoc xs ys rest, h.reads xs ex (ys ++ rest), k.reads ys ey rest);
  }

  -- The last part, after which the value is built.
  pub last-RoundTrips :
      (w : Result Bytes) (p : Parser A) (g : A → B) (a : A)
      → RoundTrips w p a
      → RoundTrips w (p >>= λ x. pure (g x)) (g a)
  last-RoundTrips w p g a h = record { reads = λ bs e rest. ground (arith, h.reads bs e rest) }

-- Parts may be grouped otherwise than they are read.
pub regroup-RoundTrips :
    {A : Type 0} (w w' w'' : Result Bytes) (p : Parser A) (a : A)
    → RoundTrips (w <+> (w' <+> w'')) p a
    → RoundTrips ((w <+> w') <+> w'') p a
regroup-RoundTrips w w' w'' p a h = record {
  reads = λ bs e rest. h.reads bs (sym (<+>_assoc w w' w'') ∙ e) rest;
}

pub read_stream-Reads : (n : ℕ) (bs : Bytes) → length bs ≡ n → Reads (read_stream n) bs bs
unfolding read_stream
read_stream-Reads n bs h rest =
    rw (← h) (rw (take-append bs rest, drop-append bs rest) (ground arith))

pub raw-RoundTrips : (n : ℕ) (bs : Bytes) → length bs ≡ n → RoundTrips (ok bs) (read_stream n) bs
raw-RoundTrips n bs h = record {
  reads = λ cs e rest. ground (arith, read_stream-Reads n bs h rest);
}

int-Reads : (k n : ℕ) (bs : Bytes) → int_to_le k n ≡ ok bs → Reads (read_little_int k) bs n
unfolding read_little_int
int-Reads k n bs e rest =
    let (small, le) = int_to_le-ok k n e in
    ground
      (arith, read_stream-Reads k bs (rw le (length-to_le k n)) rest, from_le-to_le k n small, le)

pub int-RoundTrips : (k n : ℕ) → RoundTrips (int_to_le k n) (read_little_int k) n
int-RoundTrips k n = record { reads = int-Reads k n }

-- The first byte is the prefix, and it sends the reader back to the writer's branch.
prefix-Reads : (b : ℕ) → b < 256 → Reads (read_little_int 1) (b ∷ []) b
unfolding read_little_int read_stream
prefix-Reads b h rest = ground arith

one_byte-RoundTrips : (n : ℕ) → n ≤ 0xfc → RoundTrips (int_to_le 1 n) read_compact_size n
unfolding read_compact_size compact_size_rest
one_byte-RoundTrips n h = record { reads = λ bs e rest. ground (arith, int-Reads 1 n bs e rest) }

wide-RoundTrips :
    (b k n : ℕ)
    → b < 256
    → compact_size_rest b ≡ read_little_int k
    → RoundTrips (ok (b ∷ []) <+> int_to_le k n) read_compact_size n
unfolding read_compact_size
wide-RoundTrips b k n h same =
    seq-RoundTrips (ok (b ∷ [])) (int_to_le k n) (read_little_int 1) compact_size_rest b n
      (record { reads = λ cs e rest. ground (arith, prefix-Reads b h rest) })
      (rw same (int-RoundTrips k n))

compact_size-Reads :
    (n : ℕ) (bs : Bytes) → write_compact_size n ≡ ok bs → Reads read_compact_size bs n
unfolding write_compact_size compact_size_rest
compact_size-Reads n bs e rest = ground (
  arith,
  λ (small : n ≤ 0xfc) (w : int_to_le 1 n ≡ ok bs). (one_byte-RoundTrips n small).reads bs w rest,
  λ (w : (ok (0xfd ∷ []) <+> int_to_le 2 n) ≡ ok bs).
      (wide-RoundTrips 0xfd 2 n (omega arith) refl).reads bs w rest,
  λ (w : (ok (0xfe ∷ []) <+> int_to_le 4 n) ≡ ok bs).
      (wide-RoundTrips 0xfe 4 n (omega arith) refl).reads bs w rest,
  λ (w : (ok (0xff ∷ []) <+> int_to_le 8 n) ≡ ok bs).
      (wide-RoundTrips 0xff 8 n (omega arith) refl).reads bs w rest,
)

pub compact_size-RoundTrips : (n : ℕ) → RoundTrips (write_compact_size n) read_compact_size n
compact_size-RoundTrips n = record { reads = compact_size-Reads n }

-- `read_compact_size` gives back every number that `write_compact_size` encodes, whatever follows.
pub read_compact_size-write_compact_size :
    (n : ℕ) (bs rest : Bytes)
    → write_compact_size n ≡ ok bs
    → read_compact_size (bs ++ rest) ≡ ok (n, rest)
read_compact_size-write_compact_size n bs rest e = compact_size-Reads n bs e rest

pub data-RoundTrips : (item : Bytes) → RoundTrips (serialize_data item) deserialize_data item
unfolding serialize_data deserialize_data
data-RoundTrips item =
    seq-RoundTrips _ _ read_compact_size read_stream (length item) item
      (compact_size-RoundTrips (length item)) (raw-RoundTrips (length item) item refl)

-- A list of values, each of which makes the round trip.
pub many-RoundTrips :
    {A : Type 0} (w : A → Result Bytes) (p : Parser A) (xs : List A)
    → All (λ x. RoundTrips (w x) p x) xs
    → RoundTrips (join_all (map w xs)) (read_many (length xs) p) xs
many-RoundTrips w p [] h = record { reads = λ bs e rest. ground arith }
many-RoundTrips w p (x ∷ xs) h =
    seq-RoundTrips (w x) (join_all (map w xs)) p
      (λ y. read_many (length xs) p >>= λ ys. pure (y ∷ ys)) x (x ∷ xs) h.0
      (last-RoundTrips (join_all (map w xs)) (read_many (length xs) p) (λ ys. x ∷ ys) xs
        (many-RoundTrips w p xs h.1))

-- The same behind the CompactSize of their number.
pub counted-RoundTrips :
    {A : Type 0} (w : A → Result Bytes) (p : Parser A) (xs : List A)
    → All (λ x. RoundTrips (w x) p x) xs
    → RoundTrips
        (write_compact_size (length xs) <+> join_all (map w xs))
        (read_compact_size >>= λ n. read_many n p)
        xs
counted-RoundTrips w p xs h =
    seq-RoundTrips _ _ read_compact_size (λ n. read_many n p) (length xs) xs
      (compact_size-RoundTrips (length xs)) (many-RoundTrips w p xs h)

-- The last part, after which a call makes the value.
pub call-RoundTrips :
    {A B : Type 0} (w : Result Bytes) (p : Parser A) (r : A → Result B) (a : A) (b : B)
    → RoundTrips w p a
    → r a ≡ ok b
    → RoundTrips w (p >>= λ x. returning (r x)) b
call-RoundTrips w p r a b h k = record { reads = λ bs e rest. ground (arith, h.reads bs e rest, k) }

-- A call that reads nothing, before the parts that are left.
pub returning-RoundTrips :
    {A B : Type 0} (w : Result Bytes) (r : Result A) (f : A → Parser B) (a : A) (b : B)
    → r ≡ ok a
    → RoundTrips w (f a) b
    → RoundTrips w (returning r >>= f) b
returning-RoundTrips w r f a b e h = record {
  reads = λ bs k rest. ground (arith, e, h.reads bs k rest);
}
