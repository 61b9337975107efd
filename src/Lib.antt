-- ===== src/Lib.antt =====
-- winservice: a verification library for the Windows guest service of this repository.
--
-- The program's parts. The service vTopGuestAgent/main.cpp, the installer InstallDriver/main.cpp and
-- the crash handler in Minidump/ are separate programs; the service logs through the library
-- LogModule/LogModule.cpp, whose interface is LogModule/LogModule.h and whose critical section comes
-- from LogModule/mutex.h. That library reads its settings with TinyXML.
--
-- Base and its children hold what the parts share: tests on numbers (Base/Tests), lists (Base/Lists),
-- C integers with their 32-bit wrap-around (Base/Int), C strings and character arrays with the
-- bounded functions of the C library (Base/Chars, Base/Strings), decimal printing and `atoi`
-- (Base/Decimal), and the commands of a process (Base/Flow). A command ends with a result or with
-- the end of the process: an access violation, or the handler that the bounded C functions call on
-- an invalid parameter.
--
-- Log is the logging library. Log/State has its static variables as a record, with the blocks that
-- are allocated, the depth of the critical section and the world; Log/Env is the record of the calls
-- that it makes and does not implement: Windows, the C runtime's files and allocator, TinyXML, the
-- program's own callback. Log/Path is `getFileSize` and `setLogPath`, Log/Write the time, the
-- allocator, `defLogFunc`, `setLogFunc`, the four logging functions and `GlobalTest`, Log/Directory
-- `CreateDeepDirectory`, Log/Config the getters and `initLogConfigure`, Log/Module `saveLogIndex`,
-- `LoadLogModule` and `UnloadLogModule`, and Log/Session any sequence of calls of the functions that
-- the library exports. Static arrays are kept byte by byte; an array on the stack or
-- the heap that is only read as a string is kept as that string. A message is the text of its format
-- and arguments. The loops over the elements of a document and over the tokens of a path are
-- recursions on lists, so no fuel is used there; the digits of a number take its successor as fuel,
-- which the lemmas of Base/Decimal/Laws show to be enough.
-- A document's own block is counted among the allocated ones from `new` to `free`; `free` runs no
-- destructor, so the blocks of its tree are counted from then on.
-- Log/Machine is a small machine, on which Log/Tests, Log/DocumentTests and Log/SessionTests apply
-- the theorems.
-- * vTopGuestAgent/main.cpp, the guest service, in Service. Service/Env.antt names what it calls and
--   does not implement; the logging functions stand there too, where they return. Service/State.antt
--   has the static variables (_ServiceStatus, _hStatus, _hServiceExitEvent) and counts the open
--   handles and environment blocks. Service/Control.antt has ServiceMain (before and behind its
--   wait), ServiceInit, ServiceControlHandler and ServiceControlManagerUpdate;
--   Service/Lifecycle.antt puts them together as a step relation, in which control requests come
--   at any time while ServiceMain waits, and are not interleaved with its own statements.
--   Service/Launch.antt has LaunchAppInSession and Run, Service/Uninstall.antt ServiceUninstall,
--   Service/Features.antt AddFeature, and Service/Program.antt main. The loop that awaits the end of
--   the stop has no bound in the code: it runs on fuel, and StopsWithin says for how many polls the
--   service manager answers that the stop is pending; a fuel that covers them is enough.
-- * InstallDriver/main.cpp, the installer, in Installer: Installer/Env.antt names what it calls, and
--   Installer/Install.antt has ServiceInstall and main. It has no loops.
-- * Minidump/CMinidump.cpp and Minidump/main.cpp, the crash handler, in Minidump: Minidump/Env.antt
--   names what they call, Minidump/Patch.antt has the jump that replaces an entry of kernel32, and
--   Minidump/Dump.antt the class WinMiniDump with StartCrashDump and StopCrashDump, and
--   Minidump/Exception.antt the exception class of inc/WinExcepeion.h; Minidump/Handlers.antt has the
--   handlers that throw, the entry point and the functions that do nothing. An address is a
--   number below 2 ^ 32, and objects are kept by their addresses.
--
-- The headers of inc/ hold the shared rings of Xen and of its drivers with their code.
-- * inc/ring.h, the ring of requests and responses, in Ring: Ring/Size.antt and Ring/Macros.antt have
--   its macros, on unsigned 32-bit indexes that wrap around. Ring/Session.antt puts the two ends
--   together as a step relation in which each step makes one access to the shared ring that the
--   other end can see, so that the ends are interleaved between the publication of an index and the
--   test of an event. The front end polls for responses there.
-- * inc/v4v.h, the ring of a V4V receiver, in V4v: V4v/Message.antt has its types, V4v/Copy.antt
--   `v4v_copy_out` and V4v/Offset.antt `v4v_copy_out_offset`. Memory is lists of bytes, and an access
--   outside them is a fault, `none`. The header's hypercall structures are not modelled.
-- * inc/vring.h, the byte ring of a pair of net channels, in Netchannel: Netchannel/Pair.antt has its
--   types and operations, and Netchannel/Send.antt nc2_can_send_payload_bytes. What the other end owns
--   is volatile, so each read of it is an argument; the `goto retry` runs on fuel, and it is enough
--   if in a round that the fuel reaches two reads of the other end's position are the same.
-- * inc/v4vapi.h, the functions of a program that uses a V4V channel, in Channel: Channel/Env.antt
--   names what they call, and Channel/Api.antt has V4vOpen to V4vClose. What the driver stores once an
--   overlapped call has returned is not modelled, nor are two pointers of a call to one object.
-- * inc/v4vkapi.h, the functions of a driver that uses a V4V channel, in Kernel: Kernel/Env.antt has
--   the structures and what the functions call, with counts of what is opened, closed and referenced,
--   Kernel/Requests.antt the functions XenV4vDevObject to XenV4VCreateKEvent with the requests that
--   the others make, and Kernel/Api.antt XenV4VInitDev to XenV4VDestroy. Kernel/Session.antt opens a
--   channel, makes any calls on it and closes it.
-- * inc/scsiboot.h, the locks in Locks and the lists in ListEntry. Locks/Irqsafe.antt is
--   `struct irqsafe_lock` and Locks/Mrsw.antt `struct xm_mrsw_irqsafe_lock`: a thread is a point in
--   one of the functions and an interrupt level, and a step is one access to the lock by one of any
--   number of threads. ListEntry.antt is XmListSplice and XmListTransplant on a memory of links; the
--   macros of the driver kit are parameters.
-- * inc/wrapper_types.h, the wrapped numbers, in Wrapper: Wrapper.antt has the functions that the
--   macros make, byte by byte, for both machines, and the domains and grant references of
--   inc/xsapi.h; Wrapper/Xenbus.antt the states and transactions of its Xenbus, and
--   Wrapper/Xenops.antt the other inline functions: those of inc/xenops.h, inc/xs_private.h and
--   inc/v2v.h, which inc/v2vk.h repeats.
-- Base/Words has their unsigned arithmetic and masks, Base/PowerOfTwo the sizes of their rings.
--
-- Not modelled: what an exception of the crash handler's handlers unwinds; TinyXML in tinyxml/, a
-- third-party library; the other headers in inc/ of Xen and of its drivers, which are declarations
-- and device calls and which the programs do not include; trace macros and debug prints of headers;
-- interleavings of several threads of the programs, since a call is run to its end; the blocks that
-- TinyXML allocates for anything but the tree of a document.
pub mod Base
pub mod Channel
pub mod Installer
pub mod Kernel
pub mod ListEntry
pub mod Locks
pub mod Log
pub mod Minidump
pub mod Netchannel
pub mod Ring
pub mod Service
pub mod V4v
pub mod Wrapper
