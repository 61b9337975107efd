-- ===== src/Minidump/Patch.antt =====
-- The jump that `PreventSetUnhandledExceptionFilter` of Minidump/CMinidump.cpp writes. An address is
-- a `DWORD`; the byte order is that of x86.
use winservice.Base.{ℕ, ◌+◌, ◌-◌, ◌*◌, ◌/◌, ◌%◌, ◌<◌, ◌≡◌, refl, ap, ◌∙◌, List, [], ◌∷◌, arith}

abbrev pub dword : ℕ
dword = 4294967296

-- `dwNewEntryAddr - dwOrgEntryAddr` behind the addition of 5
unfoldable pub relative_addr : ℕ → ℕ → ℕ
relative_addr org new = (new + dword - (org + 5) % dword) % dword

-- `memcpy` of a `DWORD`
unfoldable pub dword_bytes : ℕ → List ℕ
dword_bytes v = v % 256 ∷ v / 256 % 256 ∷ v / 65536 % 256 ∷ v / 16777216 % 256 ∷ []

unfoldable pub new_jump : ℕ → ℕ → List ℕ
unfolding relative_addr dword_bytes
new_jump org new = 0xE9 ∷ dword_bytes (relative_addr org new)

-- Where a processor goes that runs the five bytes at an address, if they are a near jump.
abbrev pub JumpsTo : ℕ → List ℕ → ℕ → Type 0
JumpsTo org (op ∷ a ∷ b ∷ c ∷ d ∷ []) new =
    (op ≡ 0xE9) × ((org + 5 + (a + 256 * b + 65536 * c + 16777216 * d)) % dword ≡ new)
JumpsTo org _ new = ⊥

dword_bytes-value :
    (v : ℕ)
    → v < dword
    → v % 256 + 256 * (v / 256 % 256) + 65536 * (v / 65536 % 256) + 16777216 * (v / 16777216 % 256)
      ≡ v
dword_bytes-value v small = omega arith

relative_addr-leads : (org new : ℕ) → new < dword → (org + 5 + relative_addr org new) % dword ≡ new
unfolding relative_addr
relative_addr-leads org new n = omega arith

relative_addr-small : (org new : ℕ) → relative_addr org new < dword
unfolding relative_addr
relative_addr-small org new = omega arith

-- The bytes written at the entry make it jump to the new function.
pub new_jump-JumpsTo : (org new : ℕ) → new < dword → JumpsTo org (new_jump org new) new
unfolding new_jump
new_jump-JumpsTo org new n =
    let value = dword_bytes-value (relative_addr org new) (relative_addr-small org new) in
    (refl, ap (λ v. (org + 5 + v) % dword) value ∙ relative_addr-leads org new n)
