-- ===== src/Base/Chars.antt =====
-- C strings and character arrays. A `Text` is the bytes of a string before its NUL; a `Buffer` is
-- the content of a `char` array.
use Prim.Native.Nat.{ℕ, ◌+◌}
use Prim.Native.Char.{code}
use Prim.Native.String.{String}
use mathlib.Core.Bool.{Bool, true, false, ◌&&◌}
use mathlib.Core.Option.{Option, none, some}
use mathlib.Core.List.{List, [], ◌∷◌, ◌++◌}
use winservice.Base.Tests.{leb, ◌==◌, if◌then◌else◌}
use winservice.Base.Lists.{length, drop}

abbrev pub Text : Type 0
Text = List ℕ

abbrev pub Buffer : Type 0
Buffer = List ℕ

-- The bytes of an ASCII literal.
abbrev pub codes : String → Text
codes String.[] = []
codes (String.◌∷◌ c s) = code c ∷ codes s

-- `strcmp(s, t) == 0`
unfoldable pub text_eq : Text → Text → Bool
text_eq [] [] = true
text_eq [] (c ∷ t) = false
text_eq (b ∷ s) [] = false
text_eq (b ∷ s) (c ∷ t) = (b == c) && text_eq s t

-- The string that a `char` array holds; `none` if no NUL ends it, so that reading it runs past the
-- end of the array.
unfoldable pub c_string : Buffer → Option Text
c_string [] = none
c_string (b ∷ bs) =
    let rest : Option Text = elim (c_string bs) [ none ↦ none | some t ↦ some (b ∷ t) ] in
    if b == 0 then some [] else rest

-- `memcpy_s(buf, size, src, strlen(src))`: `none` is the invalid-parameter handler, which ends the
-- process.
unfoldable pub memcpy_s : ℕ → Text → Buffer → Option Buffer
memcpy_s size src buf = if leb (length src) size then some (src ++ drop (length src) buf) else none

-- `sprintf_s(buf, size, …)` that prints `out`; `none` is the invalid-parameter handler.
unfoldable pub sprintf_s : ℕ → Text → Buffer → Option Buffer
sprintf_s size out buf =
    if leb size (length out) then none else some (out ++ (0 ∷ drop (length out + 1) buf))

-- A token that has been read, if it is not empty, before the others.
abbrev pub flush : Text → List Text → List Text
flush [] rest = rest
flush (c ∷ run) rest = (c ∷ run) ∷ rest

-- `run` is the token being read.
tokens_from : ℕ → Text → Text → List Text
tokens_from sep run [] = flush run []
tokens_from sep run (c ∷ t) =
    let cut : List Text = flush run (tokens_from sep [] t) in
    let more : List Text = tokens_from sep (run ++ c ∷ []) t in if c == sep then cut else more

-- `strtok_s` called until it returns NULL: the longest runs without the delimiter.
unfoldable pub tokens : ℕ → Text → List Text
unfolding tokens_from
tokens sep t = tokens_from sep [] t
