-- ===== src/Netchannel/Pair.antt =====
-- The ring pair of inc/vring.h and its operations. The half that the other end owns is volatile:
-- what each read of it gives is an argument. The barriers order the accesses of a processor.
pub mod Events
pub mod Place
pub mod Wrap
use winservice.Base.{
  ℕ, ◌+◌, ◌-◌, ◌%◌, ◌^◌, ◌/◌, ◌==◌, Bool, true, false, List, bit_and, ltb, leb, if◌then◌else◌,
}
use winservice.Base.Words.{add32, sub32}

pub record NetchannelSringFields : Type 0 where
  pub prod : ℕ
  pub prod_event : ℕ
  pub cons : ℕ
  pub cons_event : ℕ
  pub consumer_active : ℕ
  pub consumer_spinning : ℕ
  pub producer_active : ℕ
  pub pad : List ℕ

-- `consumer_payload` is an address, and `producer_payload` the bytes that are written.
pub record RingPair : Type 0 where
  pub local_endpoint : NetchannelSringFields
  pub producer_payload : ℕ → ℕ
  pub consumer_payload : ℕ
  pub local_prod : ℕ
  pub local_prod_pvt : ℕ
  pub local_cons : ℕ
  pub local_cons_pvt : ℕ
  pub local_prod_bytes_available : ℕ
  pub local_producer_active : ℕ
  pub producer_payload_bytes : ℕ
  pub consumer_payload_bytes : ℕ

pub record NetchannelMsgHdr : Type 0 where
  pub type : ℕ
  pub flags : ℕ
  pub size : ℕ

-- `NETCHANNEL2_MSG_PAD`
abbrev pub msg_pad : ℕ
msg_pad = 255

-- `ULONG_PTR` has `bits` bits.
unfoldable pub incoming_message : (bits : ℕ) → RingPair → ℕ
incoming_message bits ring =
    (ring.consumer_payload + bit_and ring.local_cons_pvt (sub32 ring.consumer_payload_bytes 1))
    % 2 ^ bits

unfoldable pub contained_in_cons_ring : (bits : ℕ) → RingPair → (msg size : ℕ) → Bool
contained_in_cons_ring bits ring msg size =
    if ltb msg ring.consumer_payload
    then false
    else if ltb ring.consumer_payload_bytes size
    then false
    else leb ((msg + size) % 2 ^ bits)
        ((ring.consumer_payload + ring.consumer_payload_bytes) % 2 ^ bits)

-- The position of the next message in `producer_payload`.
unfoldable pub get_message_ptr : RingPair → ℕ
get_message_ptr ring = bit_and ring.local_prod_pvt (sub32 ring.producer_payload_bytes 1)

-- A header at a position, `size` with its lower byte first.
unfoldable pub store_header : ℕ → NetchannelMsgHdr → (ℕ → ℕ) → ℕ → ℕ
store_header i h payload j =
    if j == i
    then h.type
    else if j == i + 1
    then h.flags
    else if j == i + 2
    then h.size % 256
    else if j == i + 3
    then h.size / 256
    else payload j

unfoldable pub send_pad : RingPair → ℕ → RingPair
send_pad ring nr_bytes = record ring {
  producer_payload =
      store_header (get_message_ptr ring) (record { type = msg_pad; flags = 0; size = nr_bytes })
        ring.producer_payload;
  local_prod_pvt = add32 ring.local_prod_pvt nr_bytes;
  local_prod_bytes_available = sub32 ring.local_prod_bytes_available nr_bytes;
}

-- `~(bytes - 1)`
abbrev pub ring_mask : ℕ → ℕ
ring_mask bytes = 4294967295 - sub32 bytes 1

unfoldable pub ring_would_wrap : RingPair → ℕ → Bool
ring_would_wrap ring nr_bytes =
    let mask = ring_mask ring.producer_payload_bytes in
    if bit_and ring.local_prod_pvt mask == bit_and (add32 ring.local_prod_pvt nr_bytes) mask
    then false
    else true

-- An `unsigned short`.
unfoldable pub pad_needed : RingPair → ℕ
pad_needed ring =
    sub32 ring.producer_payload_bytes
      (bit_and ring.local_prod_pvt (sub32 ring.producer_payload_bytes 1))
    % 65536

unfoldable pub avoid_ring_wrap : RingPair → ℕ → RingPair
avoid_ring_wrap ring nr_bytes =
    if ring_would_wrap ring nr_bytes then send_pad ring (pad_needed ring) else ring

-- Whether a move of a pointer from `old` to `new` crosses the event.
abbrev pub crosses : ℕ → ℕ → ℕ → Bool
crosses old new event = ltb (sub32 new event) (sub32 new old)

-- `remote` is what is read of the other half.
unfoldable pub flush_would_trigger_event : (remote : NetchannelSringFields) → RingPair → Bool
flush_would_trigger_event remote ring =
    crosses ring.local_prod ring.local_prod_pvt remote.prod_event

unfoldable pub flush_ring : (remote : NetchannelSringFields) → RingPair → RingPair × Bool
flush_ring remote ring =
    let new_prod = ring.local_prod_pvt in
    let old_prod = ring.local_prod in
    (
      record ring {
        local_endpoint = record (ring.local_endpoint) { prod = new_prod };
        local_prod = new_prod;
      },
      crosses old_prod new_prod remote.prod_event,
    )

unfoldable pub finish_messages : (remote : NetchannelSringFields) → RingPair → RingPair × Bool
finish_messages remote ring =
    let old_cons = ring.local_cons in
    let new_cons = ring.local_cons_pvt in
    (
      record ring {
        local_endpoint = record (ring.local_endpoint) { cons = new_cons };
        local_cons = new_cons;
      },
      crosses old_cons new_cons remote.cons_event,
    )

-- `first` and `second` are what the two reads of the other end's `prod` give.
unfoldable pub final_check_for_messages : (first second : ℕ) → RingPair → ℕ → RingPair × Bool
final_check_for_messages first second ring prod =
    if prod == first
    then (
      record ring { local_endpoint = record (ring.local_endpoint) { prod_event = add32 prod 1 } },
      if prod == second then false else true,
    )
    else (ring, true)
