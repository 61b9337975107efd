-- ===== src/Kernel/Env.antt =====
-- What inc/v4vkapi.h calls and does not implement, and the structures that it keeps. `W` is the world
-- that the calls read and change. A handle or an address is a number, and NULL is `none`; a status is
-- a word of 32 bits. A call that fails stores nothing through its pointers.
use winservice.Base.{
  ℕ, ◌+◌, ltb, Bool, Option, none, some, List, ◌∷◌, ok, crash, Cmd, plus, holding, if◌then◌else◌,
}
use winservice.Channel.Env.{Request}

abbrev pub status_success : ℕ
status_success = 0

abbrev pub status_pending : ℕ
status_pending = 0x103

abbrev pub status_unsuccessful : ℕ
status_unsuccessful = 0xC0000001

-- `NT_SUCCESS`
abbrev pub nt_success : ℕ → Bool
nt_success status = ltb status 0x80000000

pub data V4vStatusType : Type 0 where
  v4v_unintialized v4v_open v4v_closed v4v_bound v4v_connected v4v_disconnected v4v_error :
      V4vStatusType

pub record V4vContext : Type 0 where
  pub v4v_handle : Option ℕ
  pub recv_event : Option ℕ
  pub recv_event_handle : Option ℕ
  pub flags : ℕ

pub record XenV4v : Type 0 where
  pub ctx : V4vContext
  pub file_object : Option ℕ
  pub dev_object : Option ℕ
  pub state : V4vStatusType

-- What a request packet asks for: a control code with its input, or a transfer.
pub data Asked : Type 0 where
  control : Request → Asked
  write read : (buf len iosb : ℕ) → Asked

-- A request packet as the driver gets it, with the fields of its next stack location.
pub record Irp : Type 0 where
  pub asked : Asked
  pub event : Option ℕ
  pub device_object : ℕ
  pub file_object : Option ℕ

pub record KernelEnv (W : Type 0) : Type 0 where
  -- `IoGetDeviceObjectPointer`: a file object and its device object.
  pub get_device_object : W → (ℕ × ℕ × ℕ) × W
  -- `ZwCreateFile` of the device and `ZwCreateEvent`, with the handle, and `ZwClose`.
  pub create_file : W → (ℕ × ℕ) × W
  pub create_event : W → (ℕ × ℕ) × W
  pub close : Option ℕ → W → ℕ × W
  -- `IoCreateSynchronizationEvent`: the event and its handle.
  pub create_synchronization_event : W → Option (ℕ × ℕ) × W
  -- `ObReferenceObjectByHandle` and `ObDereferenceObject`, and the device object of a file object.
  pub reference_object : ℕ → W → (ℕ × ℕ) × W
  pub dereference_object : ℕ → W → W
  pub device_of : ℕ → W → ℕ
  -- Whether `IoBuildDeviceIoControlRequest` or `IoBuildSynchronousFsdRequest` builds a packet.
  pub build_request : ℕ → Asked → Option ℕ → W → Bool × W
  pub call_driver : ℕ → Irp → W → ℕ × W
  -- `KeWaitForSingleObject`
  pub wait : ℕ → W → ℕ × W
  pub free_pool : XenV4v → W → W

-- The structure and the world, with a record of the calls: how often each handle has been opened and
-- closed, and each object referenced and dereferenced, what has been handed to the driver, the last
-- first, and how often an event, a packet or a reference was refused.
pub record Kernel (W : Type 0) : Type 0 where
  pub v4v : XenV4v
  pub opened : ℕ → ℕ
  pub closed : ℕ → ℕ
  pub referenced : ℕ → ℕ
  pub dereferenced : ℕ → ℕ
  pub handed : List Irp
  pub refused : ℕ
  pub world : W

abbrev pub KernelCmd : Type 0 → Type 0 → Type 0
KernelCmd W A = Cmd (Kernel W) A

module _ {W : Type 0} where
  abbrev pub updating : (XenV4v → XenV4v) → KernelCmd W (Unit {0})
  updating f s = ok tt (record s { v4v = f s.v4v })

  abbrev pub field : {A : Type 0} → (XenV4v → A) → KernelCmd W A
  field f s = ok (f s.v4v) s

  -- A status with a handle, which is stored where the status is one of success.
  abbrev pub opening : (W → (ℕ × ℕ) × W) → KernelCmd W (ℕ × Option ℕ)
  opening call s =
      let r = call s.world in
      if nt_success r.0.0
      then ok (r.0.0, some r.0.1) (record s { opened = plus r.0.1 s.opened; world = r.1 })
      else ok (r.0.0, none) (record s { world = r.1 })

  abbrev pub closing : (Option ℕ → W → ℕ × W) → Option ℕ → KernelCmd W ℕ
  closing call h s =
      let r = call h s.world in
      ok r.0
        (record s { closed = if nt_success r.0 then holding h s.closed else s.closed; world = r.1 })

  -- The event and its handle, each NULL where none is created.
  abbrev pub creating_at : Option (ℕ × ℕ) → W → KernelCmd W (Option ℕ × Option ℕ)
  creating_at none w s = ok (none, none) (record s { refused = s.refused + 1; world = w })
  creating_at (some (event, h)) w s =
      ok (some event, some h) (record s { opened = plus h s.opened; world = w })

  abbrev pub creating : (W → Option (ℕ × ℕ) × W) → KernelCmd W (Option ℕ × Option ℕ)
  creating call s = let r = call s.world in creating_at r.0 r.1 s

  -- A status with an object, which is stored where the status is one of success.
  abbrev pub referencing : (ℕ → W → (ℕ × ℕ) × W) → ℕ → KernelCmd W (ℕ × Option ℕ)
  referencing call h s =
      let r = call h s.world in
      if nt_success r.0.0
      then ok (r.0.0, some r.0.1) (record s { referenced = plus r.0.1 s.referenced; world = r.1 })
      else ok (r.0.0, none) (record s { refused = s.refused + 1; world = r.1 })

  -- Whether a packet is built. A NULL device object is a fault.
  abbrev pub building_for :
      Option ℕ → (ℕ → Asked → Option ℕ → W → Bool × W) → Asked → Option ℕ → KernelCmd W Bool
  building_for none call asked event s = crash s
  building_for (some device) call asked event s =
      let r = call device asked event s.world in
      ok r.0 (record s { refused = if r.0 then s.refused else s.refused + 1; world = r.1 })

  abbrev pub handing_to : Option ℕ → (ℕ → Irp → W → ℕ × W) → Asked → Option ℕ → KernelCmd W ℕ
  handing_to none call asked event s = crash s
  handing_to (some device) call asked event s =
      let irp : Irp = record {
        asked = asked;
        event = event;
        device_object = device;
        file_object = s.v4v.file_object;
      } in
      let r = call device irp s.world in ok r.0 (record s { handed = irp ∷ s.handed; world = r.1 })

  -- A wait for a NULL event is a fault.
  abbrev pub waiting : (ℕ → W → ℕ × W) → Option ℕ → KernelCmd W ℕ
  waiting call none s = crash s
  waiting call (some event) s = let r = call event s.world in ok r.0 (record s { world = r.1 })

  -- `ObDereferenceObject`, of NULL a fault.
  abbrev pub releasing : (ℕ → W → W) → Option ℕ → KernelCmd W (Unit {0})
  releasing call none s = crash s
  releasing call (some object) s =
      ok tt (record s { dereferenced = plus object s.dereferenced; world = call object s.world })

  -- The device object of a file object, of NULL a fault.
  abbrev pub device_from : (ℕ → W → ℕ) → Option ℕ → KernelCmd W ℕ
  device_from call none s = crash s
  device_from call (some file) s = ok (call file s.world) s

  abbrev pub freeing : (XenV4v → W → W) → KernelCmd W (Unit {0})
  freeing call s = ok tt (record s { world = call s.v4v s.world })
