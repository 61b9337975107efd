-- ===== src/Netchannel/Tests.antt =====
-- Runs on byte rings of 64 bytes, and on one of 65536.
use winservice.Base.{
  ℕ, zero, suc, ◌+◌, ◌%◌, ◌≤◌, ◌<◌, ◌≡◌, ◌⊎◌, refl, true, false, some, [], leb, arith,
}
use winservice.Base.Words.{add32, sub32}
use winservice.Base.PowerOfTwo.{IsSize}
use winservice.Netchannel.Pair.{
  NetchannelSringFields, RingPair, msg_pad, incoming_message, contained_in_cons_ring,
  get_message_ptr, store_header, send_pad, ring_would_wrap, pad_needed, avoid_ring_wrap,
  flush_would_trigger_event, flush_ring, finish_messages, final_check_for_messages,
}
use winservice.Netchannel.Pair.Place.{contained_in_cons_ring-incoming}
use winservice.Netchannel.Pair.Events.{flush_ring-crosses, final_check_for_messages-notified}
use winservice.Netchannel.Send.{send_retry, padded_bytes, can_send_payload_bytes}
use winservice.Netchannel.Send.Answer.{space}
use winservice.Netchannel.Send.Returns.{Returned, can_send_payload_bytes-Returned}
use winservice.Netchannel.Send.Room.{Ready, can_send_payload_bytes-Ready}
use winservice.Netchannel.Send.Wake.{can_send_payload_bytes-woken}

abbrev half : NetchannelSringFields
half = record {
  prod = 30;
  prod_event = 35;
  cons = 20;
  cons_event = 3;
  consumer_active = 1;
  consumer_spinning = 0;
  producer_active = 0;
  pad = [];
}

abbrev pair_64 : RingPair
pair_64 = record {
  local_endpoint = half;
  producer_payload = λ _. 0;
  consumer_payload = 4096;
  local_prod = 30;
  local_prod_pvt = 40;
  local_cons = 100;
  local_cons_pvt = 116;
  local_prod_bytes_available = 0;
  local_producer_active = 0;
  producer_payload_bytes = 64;
  consumer_payload_bytes = 64;
}

pair_64-IsSize : IsSize 64
pair_64-IsSize = record { log = 6; power = refl; small = omega arith }

-- The other end's `cons` moves on from 20 to 36 behind the first read.
abbrev moving : ℕ → ℕ
moving zero = 20
moving (suc _) = 36

-- A message of 32 bytes goes round and needs a pad of 24.
moving_sends :
    can_send_payload_bytes 2 moving pair_64 32
    ≡ some (
      record pair_64 {
        local_endpoint = record half { cons_event = 21 };
        local_prod_bytes_available = 60;
      },
      true,
    )
unfolding can_send_payload_bytes send_retry padded_bytes ring_would_wrap pad_needed
moving_sends = refl

can_send_payload_bytes-Returned_example : Returned (can_send_payload_bytes 2 moving pair_64 32)
can_send_payload_bytes-Returned_example =
    can_send_payload_bytes-Returned 2 moving 1 pair_64 32 (omega arith) refl

moving_inside : (i : ℕ) → sub32 40 (moving i) ≤ 64
moving_inside zero = omega arith
moving_inside (suc i) = omega arith

can_send_payload_bytes-Ready_example :
    (c : ℕ) × ((c ≡ 20) ⊎ ((i : ℕ) × (c ≡ moving i)))
    × Ready 64 32 c (
        avoid_ring_wrap
          (record pair_64 {
            local_endpoint = record half { cons_event = 21 };
            local_prod_bytes_available = 60;
          })
          32)
can_send_payload_bytes-Ready_example =
    can_send_payload_bytes-Ready pair_64-IsSize 32 (omega arith) (omega arith) 2 moving 20 pair_64
      (record pair_64 {
        local_endpoint = record half { cons_event = 21 };
        local_prod_bytes_available = 60;
      })
      (record { bytes = refl; word = omega arith; fits = omega arith }) moving_inside moving_sends

-- With `cons` at 20 it does not fit.
abbrev standing : ℕ → ℕ
standing _ = 20

standing_refuses :
    can_send_payload_bytes 1 standing pair_64 32
    ≡ some (record pair_64 { local_endpoint = record half { cons_event = 21 } }, false)
unfolding can_send_payload_bytes send_retry padded_bytes ring_would_wrap pad_needed
standing_refuses = refl

can_send_payload_bytes-woken_example :
    (k : ℕ) × (space pair_64 20 < padded_bytes pair_64 32)
    × (standing k ≡ standing (k + 1))
    × ((finish_messages
          (record half { cons_event = 21 })
          (record pair_64 { local_cons = 20; local_cons_pvt = add32 20 8 })).1
        ≡ true)
can_send_payload_bytes-woken_example =
    can_send_payload_bytes-woken standing pair_64 32 (λ i. omega arith) pair_64 8 (omega arith)
      (omega arith) 1 (record pair_64 { local_endpoint = record half { cons_event = 21 } })
      standing_refuses

event_crossed :
    (flush_ring half pair_64
      ≡ (record pair_64 { local_endpoint = record half { prod = 40 }; local_prod = 40 }, true))
    × (flush_would_trigger_event half pair_64 ≡ true)
event_crossed =
    flush_ring-crosses half pair_64 30 40 35 refl refl refl (omega arith) (omega arith)
      (omega arith) (omega arith)

abbrev idle_prod : ℕ
idle_prod = 116

checked_idle :
    final_check_for_messages 116 116 pair_64 116
    ≡ (record pair_64 { local_endpoint = record half { prod_event = 117 } }, false)
unfolding final_check_for_messages
checked_idle = refl

final_check_for_messages-notified_example :
    (idle_prod ≡ idle_prod)
    × ((flush_ring
          (record half { prod_event = 117 })
          (record pair_64 { local_prod = 116; local_prod_pvt = add32 116 8 })).1
        ≡ true)
final_check_for_messages-notified_example =
    final_check_for_messages-notified 116 116 pair_64
      (record pair_64 { local_endpoint = record half { prod_event = 117 } }) 116 (omega arith)
      checked_idle pair_64 8 (omega arith) (omega arith)

second_message_fits :
    contained_in_cons_ring 32 pair_64 (incoming_message 32 pair_64) 12 ≡ leb (116 % 64 + 12) 64
second_message_fits =
    contained_in_cons_ring-incoming pair_64-IsSize 32 pair_64 12 refl (omega arith)

-- The pad is a header of its own at the end of the ring.
padded : get_message_ptr (avoid_ring_wrap pair_64 32) ≡ 0
unfolding get_message_ptr avoid_ring_wrap ring_would_wrap send_pad pad_needed
padded = refl

padded_header : (avoid_ring_wrap pair_64 32).producer_payload 40 ≡ msg_pad
unfolding get_message_ptr avoid_ring_wrap ring_would_wrap send_pad pad_needed store_header
padded_header = refl

-- With a message of 40000 bytes and its pad of 35536 the sum is cut to 10000, and 1 is returned with
-- no more bytes than that.
abbrev pair_64k : RingPair
pair_64k = record pair_64 { producer_payload_bytes = 65536; local_prod_pvt = 95536 }

cut_to_short :
    can_send_payload_bytes 1 (λ _. 40000) pair_64k 40000
    ≡ some (record pair_64k { local_prod_bytes_available = 10000 }, true)
unfolding can_send_payload_bytes send_retry padded_bytes ring_would_wrap pad_needed
cut_to_short = refl
