-- ===== src/Network/Messages/RoundTrip.antt =====
-- Every control and filter message is read back as it was sent.
use bitclone.Base.{ℕ, ◌≡◌, refl, ok, ◌++◌, List, [], length, All, map, some, arith}
use bitclone.Base.Bytes.{Bytes}
use bitclone.ByteStream.{pure, read_stream}
use bitclone.ByteStream.RoundTrip.{
  RoundTrips, seq-RoundTrips, last-RoundTrips, raw-RoundTrips, int-RoundTrips, counted-RoundTrips,
  compact_size-RoundTrips,
}
use bitclone.Network.Framing.{lower_byte, write_message}
use bitclone.Network.Framing.Reader.{read_message}
use bitclone.Network.Framing.RoundTrip.{read_message-write_message}
use bitclone.Network.Payloads.{hash_length}
use bitclone.Network.Payloads.RoundTrip.{All-raw}
use bitclone.Network.Messages.{
  Message, MessageClass, command, get_registered, class_of, hashes, write_range, write_hashes,
  write_sized, to_payload, write_number, write_filter_load, write_cfilter, write_cfheaders,
  write_get_cfcheckpt, write_cfcheckpt,
}
use bitclone.Network.Messages.Reader.{
  read_range, read_hashes, read_sized, read_number, read_filter_add, read_filter_load, read_cfilter,
  read_cfheaders, read_get_cfcheckpt, read_cfcheckpt, from_payload,
}

number-RoundTrips :
    (cls : ℕ → Message) (n : ℕ) → RoundTrips (write_number n) (read_number cls) (cls n)
unfolding read_number write_number
number-RoundTrips cls n = last-RoundTrips _ _ cls n (int-RoundTrips 8 n)

range-RoundTrips :
    (cls : ℕ → ℕ → Bytes → Message) (t h : ℕ) (stop : Bytes)
    → length stop ≡ hash_length
    → RoundTrips (write_range t h stop) (read_range cls) (cls t h stop)
unfolding read_range write_range
range-RoundTrips cls t h stop size = seq-RoundTrips _ _ _ _ t _ (int-RoundTrips 1 t) (
    seq-RoundTrips _ _ _ _ h _ (int-RoundTrips 4 h)
      (last-RoundTrips _ _ (cls t h) stop (raw-RoundTrips 32 stop size)))

hashes-RoundTrips :
    (hs : List Bytes)
    → All (λ h. length h ≡ hash_length) hs
    → RoundTrips (write_hashes hs) read_hashes hs
unfolding write_hashes read_hashes
hashes-RoundTrips hs sizes = counted-RoundTrips ok (read_stream 32) hs (All-raw 32 hs sizes)

sized-RoundTrips : (bs : Bytes) → RoundTrips (write_sized bs) read_sized bs
unfolding write_sized read_sized
sized-RoundTrips bs =
    seq-RoundTrips _ _ _ read_stream (length bs) bs (compact_size-RoundTrips (length bs))
      (raw-RoundTrips (length bs) bs refl)

pure-RoundTrips : (m : Message) → RoundTrips (ok []) (pure m) m
pure-RoundTrips m = record { reads = λ bs e rest. ground (arith, e) }

payload-RoundTrips :
    (m : Message)
    → All (λ h. length h ≡ hash_length) (hashes m)
    → RoundTrips (to_payload m) (from_payload (class_of m)) m
unfolding to_payload from_payload write_filter_load write_cfilter write_cfheaders
    write_get_cfcheckpt write_cfcheckpt read_filter_add read_filter_load read_cfilter read_cfheaders
    read_get_cfcheckpt read_cfcheckpt
payload-RoundTrips (Message.ping n) sizes = number-RoundTrips Message.ping n
payload-RoundTrips (Message.pong n) sizes = number-RoundTrips Message.pong n
payload-RoundTrips (Message.fee_filter n) sizes = number-RoundTrips Message.fee_filter n
payload-RoundTrips (Message.filter_add bs) sizes =
    last-RoundTrips _ _ Message.filter_add bs (sized-RoundTrips bs)
payload-RoundTrips (Message.filter_load bs n t f) sizes =
    seq-RoundTrips _ _ _ _ (length bs) _ (compact_size-RoundTrips (length bs)) (
      seq-RoundTrips _ _ _ _ bs _ (raw-RoundTrips (length bs) bs refl) (
        seq-RoundTrips _ _ _ _ n _ (int-RoundTrips 4 n) (
          seq-RoundTrips _ _ _ _ t _ (int-RoundTrips 4 t)
            (last-RoundTrips _ _ (Message.filter_load bs n t) f (int-RoundTrips 1 f)))))
payload-RoundTrips (Message.get_cfilters t h stop) sizes =
    range-RoundTrips Message.get_cfilters t h stop sizes.0
payload-RoundTrips (Message.get_cfheaders t h stop) sizes =
    range-RoundTrips Message.get_cfheaders t h stop sizes.0
payload-RoundTrips (Message.cfilter t h bs) sizes =
    seq-RoundTrips _ _ _ _ t _ (int-RoundTrips 1 t) (
      seq-RoundTrips _ _ _ _ h _ (raw-RoundTrips 32 h sizes.0)
        (last-RoundTrips _ _ (Message.cfilter t h) bs (sized-RoundTrips bs)))
payload-RoundTrips (Message.cfheaders t stop previous hs) sizes =
    seq-RoundTrips _ _ _ _ t _ (int-RoundTrips 1 t) (
      seq-RoundTrips _ _ _ _ stop _ (raw-RoundTrips 32 stop sizes.0) (
        seq-RoundTrips _ _ _ _ previous _ (raw-RoundTrips 32 previous sizes.1.0) (
          last-RoundTrips _ _ (Message.cfheaders t stop previous) hs
            (hashes-RoundTrips hs sizes.1.1))))
payload-RoundTrips (Message.get_cfcheckpt t stop) sizes =
    seq-RoundTrips _ _ _ _ t _ (int-RoundTrips 1 t)
      (last-RoundTrips _ _ (Message.get_cfcheckpt t) stop (raw-RoundTrips 32 stop sizes.0))
payload-RoundTrips (Message.cfcheckpt t stop hs) sizes =
    seq-RoundTrips _ _ _ _ t _ (int-RoundTrips 1 t) (
      seq-RoundTrips _ _ _ _ stop _ (raw-RoundTrips 32 stop sizes.0)
        (last-RoundTrips _ _ (Message.cfcheckpt t stop) hs (hashes-RoundTrips hs sizes.1)))
payload-RoundTrips Message.filter_clear sizes = pure-RoundTrips Message.filter_clear
payload-RoundTrips Message.get_addr sizes = pure-RoundTrips Message.get_addr
payload-RoundTrips Message.send_headers sizes = pure-RoundTrips Message.send_headers
payload-RoundTrips Message.send_addr_v2 sizes = pure-RoundTrips Message.send_addr_v2
payload-RoundTrips Message.ver_ack sizes = pure-RoundTrips Message.ver_ack
payload-RoundTrips Message.wtxid_relay sizes = pure-RoundTrips Message.wtxid_relay
payload-RoundTrips Message.mem_pool sizes = pure-RoundTrips Message.mem_pool

-- A command is lower-case and names its own class.
registered :
    (c : MessageClass)
    → (map lower_byte (command c) ≡ command c) × (get_registered (command c) ≡ some c)
unfolding command get_registered
registered MessageClass.ping_class = (refl, refl)
registered MessageClass.pong_class = (refl, refl)
registered MessageClass.fee_filter_class = (refl, refl)
registered MessageClass.filter_add_class = (refl, refl)
registered MessageClass.filter_load_class = (refl, refl)
registered MessageClass.filter_clear_class = (refl, refl)
registered MessageClass.get_addr_class = (refl, refl)
registered MessageClass.send_headers_class = (refl, refl)
registered MessageClass.send_addr_v2_class = (refl, refl)
registered MessageClass.ver_ack_class = (refl, refl)
registered MessageClass.wtxid_relay_class = (refl, refl)
registered MessageClass.mem_pool_class = (refl, refl)
registered MessageClass.get_cfilters_class = (refl, refl)
registered MessageClass.cfilter_class = (refl, refl)
registered MessageClass.get_cfheaders_class = (refl, refl)
registered MessageClass.cfheaders_class = (refl, refl)
registered MessageClass.get_cfcheckpt_class = (refl, refl)
registered MessageClass.cfcheckpt_class = (refl, refl)

module _ (hash256 : Bytes → Bytes) where
  -- A control or filter message with 32-byte hashes that was framed for a network is of the class that
  -- is registered for its command, and that class reads it back, with its network, whatever follows.
  pub message_is_read_back :
      (m : Message) (magic bs rest : Bytes)
      → All (λ h. length h ≡ hash_length) (hashes m)
      → write_message hash256 (command (class_of m)) magic (to_payload m) ≡ ok bs
      → (get_registered (command (class_of m)) ≡ some (class_of m))
        × (read_message hash256 (command (class_of m)) (from_payload (class_of m)) (bs ++ rest)
            ≡ ok ((m, magic), rest))
  message_is_read_back m magic bs rest sizes e = (
    (registered (class_of m)).1,
    read_message-write_message hash256 (command (class_of m)) magic _ _ m bs rest
        (registered (class_of m)).0 (payload-RoundTrips m sizes) e,
  )
