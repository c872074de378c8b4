-- ===== src/ByteStream/Streams.antt =====
-- A reader takes the unread bytes of its stream and returns a value with the bytes that it left.
use bitclone.Base.{Result, ok, err, Error}
use bitclone.Base.Bytes.{Bytes}

abbrev pub Parser : Type 0 → Type 0
Parser A = Bytes → Result (A × Bytes)

abbrev pub pure : {A : Type 0} → A → Parser A
pure a s = ok (a, s)

abbrev pub raise : {A : Type 0} → Error → Parser A
raise e s = err e

-- A call that reads nothing.
abbrev pub returning : {A : Type 0} → Result A → Parser A
returning r s = elim r [ ok a ↦ ok (a, s) | err e ↦ err e ]

infixl 5 ◌>>=◌
abbrev pub ◌>>=◌ : {A B : Type 0} → Parser A → (A → Parser B) → Parser B
◌>>=◌ m f s = elim (m s) [ ok (a, s') ↦ f a s' | err e ↦ err e ]
