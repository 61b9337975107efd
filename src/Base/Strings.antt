-- ===== src/Base/Strings.antt =====
-- What the string functions of `Base.Chars` do with each other.
use Prim.Native.Nat.{ℕ, zero, suc, ◌+◌, ◌-◌, ◌≤◌, ◌<◌}
use mathlib.Core.Path.{◌≡◌, refl, ap, subst, ◌∙◌}
use mathlib.Core.Logic.{◌≢◌, ◌↔◌, inl, inr}
use mathlib.Core.Bool.{true}
use mathlib.Core.Option.{some}
use mathlib.Core.List.{[], ◌∷◌, ◌++◌}
use native.Mathlib.Omega.{arith}
use winservice.Base.Tests.{◌==◌, Bool-cases, Option-cases}
use winservice.Base.Lists.{
  length, drop, All, replicate, length-append, length-drop, length-replicate,
}
use winservice.Base.Chars.{Text, Buffer, text_eq, c_string, memcpy_s, sprintf_s}

-- The bytes of a C string: none is NUL.
abbrev pub NoNul : Text → Type 0
NoNul = All (λ b. b ≢ 0)

pub text_eq_iff : (s t : Text) → (text_eq s t ≡ true) ↔ (s ≡ t)
unfolding text_eq
text_eq_iff [] [] = (λ _. refl, λ _. refl)
text_eq_iff [] (c ∷ t) = ground arith
text_eq_iff (b ∷ s) [] = ground arith
text_eq_iff (b ∷ s) (c ∷ t) = ground (arith, text_eq_iff s t)

pub text_eq_refl : (s : Text) → text_eq s s ≡ true
text_eq_refl s = (text_eq_iff s s).1 refl

pub c_string-append_nul : (t : Text) (rest : Buffer) → NoNul t → c_string (t ++ 0 ∷ rest) ≡ some t
unfolding c_string
c_string-append_nul [] rest h = refl
c_string-append_nul (b ∷ t) rest h = ground (arith, c_string-append_nul t rest h.1)

pub c_string-NoNul : (b : Buffer) (t : Text) → c_string b ≡ some t → NoNul t
unfolding c_string
c_string-NoNul [] t e = cc
c_string-NoNul (c ∷ b) t e = elim (Bool-cases (c == 0)) [
  | inl nul ↦ let p : [] ≡ t = ground arith in subst NoNul p tt
  | inr more ↦ elim (Option-cases (c_string b)) [
    | inl open_end ↦ absurd (ground arith)
    | inr (u, f) ↦
        let p : c ∷ u ≡ t = ground arith in subst NoNul p (ground arith, c_string-NoNul b u f)
  ]
]

pub NoNul-append : (s t : Text) → NoNul s → NoNul t → NoNul (s ++ t)
NoNul-append [] t h k = k
NoNul-append (b ∷ s) t h k = (h.0, NoNul-append s t h.1 k)

-- The array behind a print that fits: the text, its NUL, and what was behind them.
abbrev pub printed : Text → Buffer → Buffer
printed out buf = out ++ (0 ∷ drop (length out + 1) buf)

pub sprintf_s-fits :
    (size : ℕ) (out : Text) (buf : Buffer)
    → length out < size
    → sprintf_s size out buf ≡ some (printed out buf)
unfolding sprintf_s
sprintf_s-fits size out buf h = ground arith

pub length-printed :
    (out : Text) (buf : Buffer) → length out < length buf → length (printed out buf) ≡ length buf
length-printed out buf h =
    omega
      (arith, length-append out (0 ∷ drop (length out + 1) buf), length-drop (length out + 1) buf)

-- A zeroed array into which a shorter text was printed.
pub c_string-padded :
    (t : Text) (n : ℕ)
    → NoNul t
    → length t < n
    → c_string (t ++ replicate (n - length t) 0) ≡ some t
c_string-padded t n h lt =
    let e : n - length t ≡ suc (n - length t - 1) = omega arith in
    rw e (c_string-append_nul t (replicate (n - length t - 1) 0) h)

pub length-padded : (t : Text) (n : ℕ) → length t ≤ n → length (t ++ replicate (n - length t) 0) ≡ n
length-padded t n h =
    omega (
      arith,
      length-append t (replicate (n - length t) 0),
      length-replicate {A = ℕ} (n - length t) 0,
    )

sub_zero : (m : ℕ) → m ≡ m - 0
sub_zero m = omega arith

suc_sub_suc : (m n : ℕ) → m - n ≡ suc m - suc n
suc_sub_suc m n = omega arith

zero_sub : (m : ℕ) → zero ≡ zero - m
zero_sub m = omega arith

drop-replicate : (n m a : ℕ) → drop n (replicate m a) ≡ replicate (m - n) a
drop-replicate zero m a = ap (λ (k : ℕ). replicate k a) (sub_zero m)
drop-replicate (suc n) zero a = ap (λ (k : ℕ). replicate k a) (zero_sub (suc n))
drop-replicate (suc n) (suc m) a =
    drop-replicate n m a ∙ ap (λ (k : ℕ). replicate k a) (suc_sub_suc m n)

-- A shorter text copied into a zeroed array.
pub memcpy_s-fits :
    (t : Text) (n : ℕ)
    → NoNul t
    → length t < n
    → (buf : Buffer) × (memcpy_s n t (replicate n 0) ≡ some buf) × (c_string buf ≡ some t)
unfolding memcpy_s
memcpy_s-fits t n h lt = (
  t ++ drop (length t) (replicate n 0),
  ground arith,
  rw (drop-replicate (length t) n 0) (c_string-padded t n h lt),
)
