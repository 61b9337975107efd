-- ===== src/Channel/Api.antt =====
-- The functions of inc/v4vapi.h. A pointer that may be NULL is an option; what is stored through it
-- is returned, and the pointers of one call are to different objects.
use winservice.Base.{
  ℕ, ◌==◌, Bool, true, false, Option, none, some, bit_and, pure, ◌>>=◌, ◌>>◌, if◌then◌else◌,
}
use winservice.V4v.Message.{V4vAddr, V4vRingId}
use winservice.Channel.Env.{
  invalid_handle, null_handle, file, V4vContext, StreamHeader, AcceptValues, InfoType, info_unset,
  InfoValues, Request, initialize, bind, listen, connect, wait, disconnect, dump_ring, Overlapped,
  ChannelEnv, ChannelCmd, opening, closing, calling, doing, asking,
}

abbrev pub error_success : ℕ
error_success = 0

-- `ERROR_INVALID_PARAMETER`
abbrev pub invalid_parameter : ℕ
invalid_parameter = 87

abbrev pub io_pending : ℕ
io_pending = 997

-- `context->flags & V4V_FLAG_OVERLAPPED`
abbrev pub is_overlapped : V4vContext → Bool
is_overlapped c = if bit_and c.flags 1 == 0 then false else true

-- The test of `V4V_CHECK_OVERLAPPED`.
unfoldable pub lacks_overlapped : V4vContext → Overlapped → Bool
lacks_overlapped c none = is_overlapped c
lacks_overlapped c (some ov) = false

-- `V4V_PORT_NONE` and `V4V_DOMID_NONE`
abbrev pub no_ring : V4vRingId
no_ring = record { addr = record { port = 0; domain = 32756 }; partner = 32756 }

abbrev pub no_values : AcceptValues
no_values = record {
  file_handle = none;
  rx_event = none;
  peer_addr = record { port = 0; domain = 0 };
  priv = 0;
}

abbrev pub no_stream : StreamHeader
no_stream = record { flags = 0; conid = 0 }

module _ {W : Type 0} (env : ChannelEnv W) where
  open env use {
    set_last_error, last_error, create_file, create_event, close_handle, control, control_accept,
    control_info,
  }

  abbrev pub refuse : {A : Type 0} → A → ChannelCmd W A
  refuse a = do doing (set_last_error invalid_parameter); pure a

  -- Whether a request has been accepted, from what `DeviceIoControl` returned.
  unfoldable pub accepted : V4vContext → Bool → ChannelCmd W Bool
  accepted c rc = do
    error ← asking last_error
    pure (
        if is_overlapped c
        then (if error == error_success then true else error == io_pending)
        else rc)

  -- A request without an output, behind the tests of the arguments.
  unfoldable pub send_request : V4vContext → Overlapped → Request → ChannelCmd W Bool
  send_request c ov request = do
    doing (set_last_error error_success)
    rc ← calling (control c.v4v_handle request ov)
    accepted c rc

  unfoldable pub checked_request :
      Option V4vContext → Overlapped → Option Request → ChannelCmd W Bool
  checked_request none ov request = refuse false
  checked_request (some c) ov none = refuse false
  checked_request (some c) ov (some request) =
      if lacks_overlapped c ov then refuse false else send_request c ov request

  unfoldable pub v4v_bind : Option V4vContext → Option V4vRingId → Overlapped → ChannelCmd W Bool
  v4v_bind context none ov = checked_request context ov none
  v4v_bind context (some ring_id) ov = checked_request context ov (some (bind ring_id))

  unfoldable pub v4v_listen : Option V4vContext → ℕ → Overlapped → ChannelCmd W Bool
  v4v_listen context backlog ov = checked_request context ov (some (listen backlog))

  unfoldable pub v4v_connect : Option V4vContext → Option V4vAddr → Overlapped → ChannelCmd W Bool
  v4v_connect context none ov = checked_request context ov none
  v4v_connect context (some ring_addr) ov =
      checked_request context ov (some (connect no_stream ring_addr))

  unfoldable pub v4v_connect_wait : Option V4vContext → Overlapped → ChannelCmd W Bool
  v4v_connect_wait context ov = checked_request context ov (some (wait no_stream))

  unfoldable pub v4v_disconnect : Option V4vContext → Overlapped → ChannelCmd W Bool
  v4v_disconnect context ov = checked_request context ov (some disconnect)

  unfoldable pub v4v_dump_ring : Option V4vContext → Overlapped → ChannelCmd W Bool
  v4v_dump_ring context ov = checked_request context ov (some dump_ring)

  -- A new file and its event are both closed where the driver does not take them.
  unfoldable pub discard : (event file : ℕ) → ChannelCmd W (Unit {0})
  discard event hd = do closing close_handle event; closing close_handle hd; pure tt

  -- A file and an event; where there is only a file it is closed.
  unfoldable pub new_channel : V4vContext → ChannelCmd W (Option (ℕ × ℕ))
  new_channel c = do
    created ← opening (create_file (is_overlapped c))
    elim created [
      | none ↦ pure none
      | some hd ↦ (do
        made ← opening create_event
        elim made [
          | none ↦ (do closing close_handle hd; pure none)
          | some event ↦ pure (some (hd, event))
        ])
    ]

  -- The result where the driver has taken the channel, and where it has not.
  unfoldable pub keep_or_discard :
      {A : Type 0} → (event file : ℕ) → (kept dropped : A) → Bool → ChannelCmd W A
  keep_or_discard event hd kept dropped true = pure kept
  keep_or_discard event hd kept dropped false = do discard event hd; pure dropped

  -- The answer, and what stands in `context` behind it.
  unfoldable pub open_channel :
      V4vContext → ℕ → Overlapped → Option (ℕ × ℕ) → ChannelCmd W (Bool × Option V4vContext)
  open_channel c ring_size ov none = pure (false, some c)
  open_channel c ring_size ov (some (hd, event)) = do
    doing (set_last_error error_success)
    rc ← calling (control (file hd) (initialize event ring_size) ov)
    done ← accepted c rc
    keep_or_discard event hd
        (true, some (record c { v4v_handle = file hd; recv_event = some event })) (false, some c)
        done

  unfoldable pub v4v_open :
      Option V4vContext → ℕ → Overlapped → ChannelCmd W (Bool × Option V4vContext)
  v4v_open none ring_size ov = refuse (false, none)
  v4v_open (some c) ring_size ov =
      let empty = record c { v4v_handle = invalid_handle; recv_event = none } in
      if lacks_overlapped c ov
      then refuse (false, some c)
      else do channel ← new_channel empty; open_channel empty ring_size ov channel

  -- The answer, and what stands in `new_context_out` and in `accept_out`.
  unfoldable pub accept_channel :
      (c out : V4vContext)
      → Overlapped
      → Option (ℕ × ℕ)
      → ChannelCmd W (Bool × Option V4vContext × Option AcceptValues)
  accept_channel c out ov none = pure (false, some out, some no_values)
  accept_channel c out ov (some (hd, event)) = do
    doing (set_last_error error_success)
    reply ← calling (
        control_accept c.v4v_handle
          (record no_values { file_handle = some hd; rx_event = some event }) ov no_values)
    done ← accepted c reply.0
    keep_or_discard event hd
        (true, some (record c { v4v_handle = file hd; recv_event = some event }), some reply.1)
        (false, some out, some reply.1) done

  unfoldable pub v4v_accept :
      Option V4vContext
      → Option V4vContext
      → Option AcceptValues
      → Overlapped
      → ChannelCmd W (Bool × Option V4vContext × Option AcceptValues)
  v4v_accept none out values ov = refuse (false, out, values)
  v4v_accept (some c) none values ov = refuse (false, none, values)
  v4v_accept (some c) (some out) none ov = refuse (false, some out, none)
  v4v_accept (some c) (some out) (some values) ov =
      if lacks_overlapped c ov
      then refuse (false, some out, some values)
      else do channel ← new_channel c; accept_channel c out ov channel

  -- The answer, and what stands in `info_out`.
  unfoldable pub v4v_get_info :
      Option V4vContext
      → InfoType
      → Option InfoValues
      → Overlapped
      → ChannelCmd W (Bool × Option InfoValues)
  v4v_get_info none type out ov = refuse (false, out)
  v4v_get_info (some c) type none ov = refuse (false, none)
  v4v_get_info (some c) type (some out) ov =
      if lacks_overlapped c ov then refuse (false, some out) else do
        doing (set_last_error error_success)
        reply ← calling (
            control_info c.v4v_handle (record { type = type; ring_info = no_ring }) ov
              (record {
                type = info_unset;
                ring_info = record { addr = record { port = 0; domain = 0 }; partner = 0 };
              }))
        done ← accepted c reply.0
        pure (done, some reply.1)

  -- `CloseHandle` of the event, and then of the file.
  unfoldable pub close_event : V4vContext → ChannelCmd W (Bool × V4vContext)
  close_event c = elim c.recv_event [
    | none ↦ pure (true, c)
    | some event ↦ (do
      closed ← closing close_handle event
      pure (closed, if closed then record c { recv_event = none } else c))
  ]

  unfoldable pub close_file : V4vContext → ChannelCmd W (Bool × V4vContext)
  close_file c = elim c.v4v_handle [
    | invalid_handle ↦ pure (true, c)
    | null_handle ↦ pure (true, c)
    | file hd ↦ (do
      closed ← closing close_handle hd
      pure (closed, if closed then record c { v4v_handle = invalid_handle } else c))
  ]

  unfoldable pub v4v_close : Option V4vContext → ChannelCmd W (Bool × Option V4vContext)
  v4v_close none = refuse (false, none)
  v4v_close (some c) = do
    first ← close_event c
    second ← close_file first.1
    pure (if first.0 then second.0 else false, some second.1)
