-- ===== src/Log/Write/Lines.antt =====
-- The lengths of what `Get_system_time` and `defLogFunc` print.
use winservice.Base.{
  ◌+◌, ◌≤◌, ◌<◌, ◌^◌, ◌≡◌, Text, codes, ◌∷◌, ◌++◌, [], length, length-append, arith,
}
use winservice.Base.Decimal.Laws.{length-show_nat, length-show_padded}
use winservice.Log.Env.{SystemTime}
use winservice.Log.Write.{time_text, final_text}

-- The fields of a `SYSTEMTIME` are of type `WORD`.
pub record IsWords (t : SystemTime) : Type 0 where
  pub year : t.year < 2 ^ 16
  pub month : t.month < 2 ^ 16
  pub day : t.day < 2 ^ 16
  pub hour : t.hour < 2 ^ 16
  pub minute : t.minute < 2 ^ 16
  pub second : t.second < 2 ^ 16
  pub milliseconds : t.milliseconds < 2 ^ 16

pub length-time_text : (t : SystemTime) → IsWords t → length (time_text t) ≤ 42
unfolding time_text
length-time_text t h = simp length-append (
    omega (
      arith,
      length-show_nat 4 t.year (omega arith),
      length-show_padded 4 2 t.month (omega arith) (omega arith),
      length-show_padded 4 2 t.day (omega arith) (omega arith),
      length-show_nat 4 t.hour (omega arith),
      length-show_padded 4 2 t.minute (omega arith) (omega arith),
      length-show_padded 4 2 t.second (omega arith) (omega arith),
      length-show_padded 4 3 t.milliseconds (omega arith) (omega arith),
    ))

pub length-final_text :
    (prefix time message : Text)
    → length (final_text prefix time message) ≡ length prefix + length time + length message + 6
unfolding final_text
length-final_text prefix time message = omega (
  arith,
  length-append prefix (b'|' ∷ (time ++ (codes "|: " ++ (message ++ 13 ∷ [])))),
  length-append time (codes "|: " ++ (message ++ 13 ∷ [])),
  length-append message (13 ∷ []),
)
