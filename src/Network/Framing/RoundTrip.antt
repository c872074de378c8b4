-- ===== src/Network/Framing/RoundTrip.antt =====
-- A framed message is read back, with the network that it was framed for.
use bitclone.Base.{
  ℕ, zero, suc, ◌-◌, ◌≤◌, ◌≡◌, refl, sym, ap, ◌∙◌, Result, ok, err, >>=-eq-ok, ok_inj, guard_ok,
  true, List, [], ◌∷◌, ◌++◌, length, length-append, take, take-append, replicate, map, append-nil,
  All, ◌==◌, arith,
}
use mathlib.Core.Path.{subst}
use bitclone.Base.Bytes.{
  Bytes, bytes_eq, bytes_eq→eq, bytes_eq_refl, int_to_le, int_to_le-ok, length-to_le,
}
use bitclone.Base.Dict.{is_member}
use bitclone.ByteStream.{Parser, pure, ◌>>=◌, returning, read_stream}
use bitclone.ByteStream.Writer.{◌<+>◌, <+>-eq-ok}
use bitclone.ByteStream.RoundTrip.{
  RoundTrips, seq-RoundTrips, raw-RoundTrips, int-RoundTrips, call-RoundTrips, returning-RoundTrips,
  read_stream-Reads,
}
use bitclone.Network.Framing
use bitclone.Network.Framing.{
  Header, command_length, header_length, allowed_magic, lower_byte, all_bytes, is_printable,
  is_valid, decode_command, encode_command, get_header, write_message, validate_package,
  check_envelope,
}
use bitclone.Network.Framing.Reader
use bitclone.Network.Framing.Reader.{read_header, read_message}

-- What the constructor checked.
abbrev IsFramed : Header → Type 0
IsFramed h =
    (is_valid h.magic_bytes h.command h.size h.checksum ≡ true)
    × (map lower_byte h.command ≡ h.command)

member_length :
    (n : ℕ) (m : Bytes) (ms : List Bytes)
    → All (λ x. length x ≡ n) ms
    → is_member bytes_eq m ms ≡ true
    → length m ≡ n
member_length n m [] h k = cc
member_length n m (x ∷ ms) h k = ground (arith, bytes_eq→eq m x, h.0, member_length n m ms h.1, k)

magic_length : (m : Bytes) → is_member bytes_eq m allowed_magic ≡ true → length m ≡ 4
magic_length m h = member_length 4 m allowed_magic (refl, (refl, (refl, (refl, tt)))) h

zeros_lem : (k : ℕ) → all_bytes (λ c. c == 0) (replicate k 0) ≡ true
zeros_lem zero = refl
zeros_lem (suc k) = zeros_lem k

decode_command-zeros : (k : ℕ) → decode_command (replicate k 0) ≡ ok []
unfolding decode_command
decode_command-zeros zero = refl
decode_command-zeros (suc k) = rw (zeros_lem k) refl

decode_command-append :
    (c : Bytes) (k : ℕ)
    → all_bytes is_printable c ≡ true
    → decode_command (c ++ replicate k 0) ≡ ok c
unfolding decode_command
decode_command-append [] k h = decode_command-zeros k
decode_command-append (b ∷ c) k h = ground (arith, decode_command-append c k, h)

length-replicate : (k : ℕ) → length (replicate {A = ℕ} k 0) ≡ k
length-replicate zero = refl
length-replicate (suc k) = ap suc (length-replicate k)

encode_command_lem :
    (c : Bytes)
    → length c ≤ command_length
    → (encode_command c ≡ c ++ replicate (command_length - length c) 0)
      × (length (encode_command c) ≡ command_length)
unfolding encode_command
encode_command_lem c h =
    let k = command_length - length c in
    let size : length (c ++ replicate k 0) ≡ command_length =
      length-append c (replicate k 0) ∙ omega (arith, length-replicate k, h) in
    let whole : take command_length (c ++ replicate k 0) ≡ c ++ replicate k 0 =
      subst (λ n. take n (c ++ replicate k 0) ≡ c ++ replicate k 0) size
        (ap (take (length (c ++ replicate k 0))) (sym (append-nil (c ++ replicate k 0)))
          ∙ take-append (c ++ replicate k 0) []) in
    (whole, ap length whole ∙ size)

header-RoundTrips : (h : Header) → IsFramed h → RoundTrips (Framing.to_bytes h) Reader.from_bytes h
unfolding Framing.to_bytes Reader.from_bytes Framing.new is_valid
header-RoundTrips h (valid, low) =
    let c = h.command in
    let (padded, size) = encode_command_lem c (ground (arith, valid)) in
    seq-RoundTrips _ _ _ _ h.magic_bytes _
      (raw-RoundTrips 4 h.magic_bytes (magic_length _ (ground (arith, valid))))
      (seq-RoundTrips _ _ _ _ (encode_command c) _ (raw-RoundTrips 12 (encode_command c) size) (
        returning-RoundTrips _ _ _ c _
          (ap decode_command padded ∙ decode_command-append c _ (ground (arith, valid)))
          (seq-RoundTrips _ _ _ _ h.size _ (int-RoundTrips 4 h.size) (
            call-RoundTrips _ _ _ h.checksum _ (raw-RoundTrips 4 h.checksum (ground (arith, valid)))
              (rw (low, valid) refl)))))

magic_known : (h : Header) → IsFramed h → is_member bytes_eq h.magic_bytes allowed_magic ≡ true
unfolding is_valid
magic_known h (valid, _) = ground (arith, valid)

framed_sizes :
    (h : Header) → IsFramed h → (length h.command ≤ command_length) × (length h.checksum ≡ 4)
unfolding is_valid
framed_sizes h (valid, _) = (ground (arith, valid), ground (arith, valid))

length-to_bytes :
    (h : Header) (bs : Bytes) → IsFramed h → Framing.to_bytes h ≡ ok bs → length bs ≡ header_length
unfolding Framing.to_bytes
length-to_bytes h bs framed e =
    let (short, summed) = framed_sizes h framed in
    let (xs, ys, e1, e2, joined) = <+>-eq-ok (ok h.magic_bytes) _ e in
    let (cs, zs, e3, e4, joined') = <+>-eq-ok (ok (encode_command h.command)) _ e2 in
    let (ns, ks, e5, e6, joined'') = <+>-eq-ok (int_to_le 4 h.size) _ e4 in
    let magic : length xs ≡ 4 =
      ap length (sym (ok_inj _ _ e1)) ∙ magic_length _ (magic_known h framed) in
    let command : length cs ≡ 12 =
      ap length (sym (ok_inj _ _ e3)) ∙ (encode_command_lem h.command short).1 in
    let size : length ns ≡ 4 = ap length ((int_to_le-ok 4 h.size e5).1) ∙ length-to_le 4 h.size in
    let checksum : length ks ≡ 4 = ap length (sym (ok_inj _ _ e6)) ∙ summed in
    rw (joined, joined', joined'')
      (omega (
        arith,
        length-append xs (cs ++ (ns ++ ks)),
        length-append cs (ns ++ ks),
        length-append ns ks,
        magic,
        command,
        size,
        checksum,
      ))

read_header-RoundTrips : (h : Header) → IsFramed h → RoundTrips (Framing.to_bytes h) read_header h
unfolding read_header
read_header-RoundTrips h framed = record {
  reads = λ bs e rest.
      let whole = (header-RoundTrips h framed).reads bs e [] in
      ground (
        arith,
        read_stream-Reads header_length bs (length-to_bytes h bs framed e) rest,
        whole,
        append-nil bs,
      );
}

-- The header of a payload.
abbrev header_of : (Bytes → Bytes) → Bytes → Bytes → Bytes → Header
header_of hash256 command magic payload = record {
  magic_bytes = magic;
  command = command;
  size = length payload;
  checksum = take 4 (hash256 payload);
}

module _ (hash256 : Bytes → Bytes) where
  get_header_lem :
      (command magic payload : Bytes) (h : Header)
      → map lower_byte command ≡ command
      → get_header hash256 command magic payload ≡ ok h
      → (h ≡ header_of hash256 command magic payload) × IsFramed h
  unfolding get_header Framing.new
  get_header_lem command magic payload h low e =
      let h' = header_of hash256 command magic payload in
      let (valid, made) =
        guard_ok (is_valid magic (map lower_byte command) (length payload) _) _ h _ e in
      let own : h ≡ h' = sym made ∙ ap (λ c. record h' { command = c }) low in
      (
        own,
        subst IsFramed (sym own) (
          subst (λ c. is_valid magic c (length payload) (take 4 (hash256 payload)) ≡ true) low
              valid,
          low,
        ),
      )

  check_envelope_lem :
      (command magic payload : Bytes)
      → is_member bytes_eq magic allowed_magic ≡ true
      → check_envelope hash256 command (header_of hash256 command magic payload) payload
        ≡ ok payload
  unfolding check_envelope validate_package
  check_envelope_lem command magic payload known =
      rw (bytes_eq_refl (take 4 (hash256 payload)), known, bytes_eq_refl command) (ground arith)

  -- What stands behind a header.
  module _ {A : Type 0} (command magic : Bytes) (from_payload : Parser A) where
    body_reader : Header → Parser (A × Bytes)
    body_reader header = read_stream header.size >>= λ raw.
        returning (check_envelope hash256 command header raw) >>= λ payload.
        returning (elim (from_payload payload) [ ok (x, _) ↦ ok x | err e ↦ err e ]) >>= λ message.
        pure (message, header.magic_bytes)

    body-RoundTrips :
        (payload : Bytes) (a : A)
        → is_member bytes_eq magic allowed_magic ≡ true
        → from_payload payload ≡ ok (a, [])
        → RoundTrips (ok payload) (body_reader (header_of hash256 command magic payload)) (a, magic)
    unfolding body_reader
    body-RoundTrips payload a known parsed = record {
      reads = λ bs e rest. ground (
        arith,
        e,
        read_stream-Reads (length payload) payload refl rest,
        check_envelope_lem command magic payload known,
        parsed,
      );
    }

  -- A message of a lower-case command that was framed for a network is read back with that network by
  -- the class of its command, whatever follows it, if `from_payload` reads back what `to_payload`
  -- wrote.
  pub read_message-write_message :
      {A : Type 0} (command magic : Bytes) (to_payload : Result Bytes) (from_payload : Parser A)
      (a : A) (bs rest : Bytes)
      → map lower_byte command ≡ command
      → RoundTrips to_payload from_payload a
      → write_message hash256 command magic to_payload ≡ ok bs
      → read_message hash256 command from_payload (bs ++ rest) ≡ ok ((a, magic), rest)
  unfolding write_message read_message body_reader
  read_message-write_message command magic to_payload from_payload a bs rest low trip e =
      let (payload, e1, r1) = >>=-eq-ok to_payload _ e in
      let (h, e2, r2) = >>=-eq-ok (get_header hash256 command magic payload) _ r1 in
      let (own, framed) = get_header_lem command magic payload h low e2 in
      let parsed : from_payload payload ≡ ok (a, []) =
        subst (λ ps. from_payload ps ≡ ok (a, [])) (append-nil payload)
          (trip.reads payload e1 []) in
      let known =
        magic_known (header_of hash256 command magic payload) (subst IsFramed own framed) in
      let both =
        seq-RoundTrips _ _ _ (body_reader command magic from_payload)
          (header_of hash256 command magic payload) (a, magic)
          (read_header-RoundTrips _ (subst IsFramed own framed))
          (body-RoundTrips command magic from_payload payload a known parsed) in
      both.reads bs (subst (λ g. (Framing.to_bytes g <+> ok payload) ≡ ok bs) own r2) rest
