-- ===== src/Minidump/Handlers.antt =====
-- The functions of Minidump/CMinidump.cpp that throw, log or do nothing, and `DllMain` of
-- Minidump/main.cpp. An exception is its text.
use winservice.Base.{ℕ, Bool, true, Text, codes, Option, none, some}
use winservice.Minidump.Env.{DumpEnv}
use winservice.Minidump.Dump.{WinMiniDump}

-- How a C++ function ends.
pub data Ending (A : Type 0) : Type 0 where
  returned : A → Ending A
  thrown : (what : Text) → Ending A

-- The arguments that the C runtime hands over are not used.
unfoldable pub invalid_parameter :
    (expression function file : Option Text) (line : ℕ) → Ending (Unit {0})
invalid_parameter expression function file line = thrown (codes "Invalid Parameter")

unfoldable pub pure_call : Ending (Unit {0})
pure_call = thrown (codes "Invalid Parameter")

-- What a caller of the patched `SetUnhandledExceptionFilter` runs: its filter is not set.
unfoldable pub temp_set_unhandled_exception_filter : (filter : Option ℕ) → Option ℕ
temp_set_unhandled_exception_filter filter = none

-- `WinMiniDump()`. `m_preFilter` has no value.
unfoldable pub empty_dump : (pre_filter : Option ℕ) → WinMiniDump
empty_dump pre_filter = record {
  pre_iph = none;
  pre_pch = none;
  log_func = none;
  pre_filter = pre_filter;
}

unfoldable pub stop_dump : {W : Type 0} → WinMiniDump → W → W
stop_dump d w = w

-- Why a library's entry point is called.
pub data Reason : Type 0 where
  process_attach process_detach thread_attach thread_detach : Reason
  other_reason : ℕ → Reason

unfoldable pub dll_main : {W : Type 0} → Reason → W → Bool × W
dll_main reason w = (true, w)

module _ {W : Type 0} (env : DumpEnv W) where
  -- The argument list stands where the arguments are expected.
  unfoldable pub mini_log : WinMiniDump → (format : Text) → (list : ℕ) → W → W
  mini_log d format list w = elim d.log_func [
    | none ↦ w
    | some func ↦ env.call_log func format list w
  ]
