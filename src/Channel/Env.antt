-- ===== src/Channel/Env.antt =====
-- What inc/v4vapi.h calls and does not implement, and the structures that it hands to the driver.
-- `W` is the world that the calls read and change. A handle is a number, an address too.
use winservice.Base.{ℕ, Bool, Option, ok, Cmd, minus, holding, if◌then◌else◌}
use winservice.V4v.Message.{V4vAddr, V4vRingId}

-- `CreateFileW` returns `INVALID_HANDLE_VALUE` where it fails.
pub data FileHandle : Type 0 where
  invalid_handle null_handle : FileHandle
  file : ℕ → FileHandle

pub record V4vContext : Type 0 where
  pub v4v_handle : FileHandle
  pub recv_event : Option ℕ
  pub flags : ℕ

pub record StreamHeader : Type 0 where
  pub flags : ℕ
  pub conid : ℕ

pub record AcceptValues : Type 0 where
  pub file_handle : Option ℕ
  pub rx_event : Option ℕ
  pub peer_addr : V4vAddr
  pub priv : ℕ

pub data InfoType : Type 0 where
  info_unset get_local_info get_peer_info : InfoType

pub record InfoValues : Type 0 where
  pub type : InfoType
  pub ring_info : V4vRingId

-- The control codes with what is handed in.
pub data Request : Type 0 where
  initialize : (rx_event ring_length : ℕ) → Request
  bind : V4vRingId → Request
  listen : (backlog : ℕ) → Request
  connect : StreamHeader → V4vAddr → Request
  wait : StreamHeader → Request
  disconnect dump_ring : Request

-- `OVERLAPPED *`, which may be NULL.
abbrev pub Overlapped : Type 0
Overlapped = Option ℕ

pub record ChannelEnv (W : Type 0) : Type 0 where
  pub set_last_error : ℕ → W → W
  pub last_error : W → ℕ
  -- `CreateFileW` of the device, whether `FILE_FLAG_OVERLAPPED` is given, and `CreateEvent`.
  pub create_file : (overlapped : Bool) → W → Option ℕ × W
  pub create_event : W → Option ℕ × W
  pub close_handle : ℕ → W → Bool × W
  -- `DeviceIoControl` without an output, and the two that have one, with what stands in it before.
  pub control : FileHandle → Request → Overlapped → W → Bool × W
  pub control_accept :
      FileHandle → AcceptValues → Overlapped → AcceptValues → W → (Bool × AcceptValues) × W
  pub control_info : FileHandle → InfoValues → Overlapped → InfoValues → W → (Bool × InfoValues) × W

-- How many open handles have a number, and the world.
pub record Opened (W : Type 0) : Type 0 where
  pub handles : ℕ → ℕ
  pub world : W

abbrev pub ChannelCmd : Type 0 → Type 0 → Type 0
ChannelCmd W A = Cmd (Opened W) A

module _ {W : Type 0} where
  abbrev pub opening : (W → Option ℕ × W) → ChannelCmd W (Option ℕ)
  opening call s =
      let r = call s.world in ok r.0 (record { handles = holding r.0 s.handles; world = r.1 })

  -- `CloseHandle`: the handle stays open where it fails.
  abbrev pub closing : (ℕ → W → Bool × W) → ℕ → ChannelCmd W Bool
  closing call h s =
      let r = call h s.world in
      ok r.0 (record { handles = if r.0 then minus h s.handles else s.handles; world = r.1 })

  abbrev pub calling : {A : Type 0} → (W → A × W) → ChannelCmd W A
  calling call s = let r = call s.world in ok r.0 (record s { world = r.1 })

  abbrev pub doing : (W → W) → ChannelCmd W (Unit {0})
  doing call s = ok tt (record s { world = call s.world })

  abbrev pub asking : {A : Type 0} → (W → A) → ChannelCmd W A
  asking call s = ok (call s.world) s
