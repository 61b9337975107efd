-- ===== src/V4v/Tests.antt =====
-- A ring of 64 bytes with a message that goes round its end, and runs of the functions on it.
use winservice.Base.{
  ℕ, ◌≡◌, refl, true, false, pos, none, some, List, [], ◌∷◌, ◌++◌, replicate, arith,
}
use winservice.V4v.Memory.{slice}
use winservice.V4v.Message.{
  V4vAddr, V4vRing, V4vRingMessageHeader, v4v_roundup, v4v_ring_bytes_to_read, header_of,
  next_header,
}
use winservice.V4v.Copy.{
  copy_bytes, copy_to_end, copy_rest, wrap_ptr, start_cursor, finish_copy, nothing_read,
  v4v_copy_out,
}
use winservice.V4v.Registered.{IsRing, HasMessage}
use winservice.V4v.Copy.Whole.{v4v_copy_out-payload}
use winservice.V4v.Offset.{
  memcpy_below, v4v_memcpy_skip, skip_bytes, skip_to_end, skip_rest, v4v_copy_out_offset,
}
use winservice.V4v.Offset.Behind.{v4v_copy_out_offset-behind}
use winservice.V4v.Offset.Zero.{v4v_copy_out_offset-zero}

abbrev to_the_end : List ℕ
to_the_end = 1 ∷ 2 ∷ 3 ∷ 4 ∷ 5 ∷ 6 ∷ 7 ∷ 8 ∷ 9 ∷ 10 ∷ 11 ∷ 12 ∷ 13 ∷ 14 ∷ 15 ∷ 16 ∷ []

abbrev behind_end : List ℕ
behind_end = 17 ∷ 18 ∷ 19 ∷ 20 ∷ 21 ∷ 22 ∷ 23 ∷ 24 ∷ []

abbrev header_bytes : List ℕ
header_bytes = 40 ∷ 0 ∷ 0 ∷ 0 ∷ 7 ∷ 0 ∷ 0 ∷ 0 ∷ 2 ∷ 0 ∷ 0 ∷ 0 ∷ 9 ∷ 0 ∷ 0 ∷ 0 ∷ []

abbrev sender : V4vAddr
sender = record { port = 7; domain = 2 }

abbrev full_ring : V4vRing
full_ring = record {
  magic = 0;
  id = record { addr = record { port = 1; domain = 1 }; partner = 2 };
  len = 64;
  rx_ptr = 32;
  tx_ptr = 16;
  ring = behind_end ++ (replicate 24 0 ++ (header_bytes ++ to_the_end));
}

abbrev its_header : V4vRingMessageHeader
its_header = record { len = 40; source = sender; pad = 0; protocol = 9 }

full_ring-IsRing : IsRing full_ring
full_ring-IsRing = record {
  array = refl;
  small = omega arith;
  len_aligned = refl;
  rx_inside = omega arith;
  rx_aligned = refl;
  tx_inside = omega arith;
  tx_aligned = refl;
}

full_ring-HasMessage : HasMessage full_ring its_header
unfolding next_header slice header_of v4v_ring_bytes_to_read
full_ring-HasMessage = record { header = refl; least = omega arith; whole = omega arith }

abbrev room : List ℕ
room = replicate 30 0

v4v_copy_out-payload_example :
    v4v_copy_out full_ring true false (some room) 20 true
    ≡ some (record {
      ret = pos 24;
      from = some sender;
      protocol = none;
      buf = some ((to_the_end ++ (17 ∷ 18 ∷ 19 ∷ 20 ∷ [])) ++ replicate 10 0);
      ring = record full_ring { rx_ptr = 16 };
    })
unfolding v4v_roundup
v4v_copy_out-payload_example =
    v4v_copy_out-payload full_ring its_header true false true room 20 full_ring-IsRing
      full_ring-HasMessage (omega arith)

nothing_skipped :
    v4v_copy_out_offset full_ring true true none 20 false 0
    ≡ v4v_copy_out full_ring true true none 20 false
nothing_skipped = v4v_copy_out_offset-zero full_ring true true none 20 false

-- A message that has not been written whole is left where it is.
half_written :
    v4v_copy_out (record full_ring { tx_ptr = 0 }) true true (some room) 20 true
    ≡ some (nothing_read (record full_ring { tx_ptr = 0 }) (some room))
unfolding v4v_copy_out v4v_ring_bytes_to_read next_header slice header_of
half_written = refl

-- Without a buffer the message is passed over.
no_buffer :
    v4v_copy_out full_ring false false none 20 true
    ≡ some (record {
      ret = pos 24;
      from = none;
      protocol = none;
      buf = none;
      ring = record full_ring { rx_ptr = 16 };
    })
unfolding v4v_copy_out v4v_ring_bytes_to_read next_header slice header_of start_cursor wrap_ptr
    copy_to_end copy_rest copy_bytes finish_copy v4v_roundup
no_buffer = refl

-- With a `skip` it is a fault: NULL less `skip` is not NULL, and is written through.
no_buffer_skip : v4v_copy_out_offset full_ring false false none 20 true 4 ≡ none
unfolding v4v_copy_out_offset v4v_ring_bytes_to_read next_header slice header_of start_cursor
    wrap_ptr skip_to_end skip_rest skip_bytes v4v_memcpy_skip memcpy_below
no_buffer_skip = refl

-- The first 18 bytes of the payload are skipped.
v4v_copy_out_offset-behind_example :
    v4v_copy_out_offset full_ring true false (some (replicate 12 0)) 20 true 18
    ≡ some (record {
      ret = pos 24;
      from = some sender;
      protocol = none;
      buf = some (19 ∷ 20 ∷ replicate 10 0);
      ring = record full_ring { rx_ptr = 16 };
    })
v4v_copy_out_offset-behind_example =
    v4v_copy_out_offset-behind full_ring true false true 20 18 room (omega arith)
      (record {
        ret = pos 24;
        from = some sender;
        protocol = none;
        buf = some ((to_the_end ++ (17 ∷ 18 ∷ 19 ∷ 20 ∷ [])) ++ replicate 10 0);
        ring = record full_ring { rx_ptr = 16 };
      })
      v4v_copy_out-payload_example
