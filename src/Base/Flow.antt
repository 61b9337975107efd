-- ===== src/Base/Flow.antt =====
-- Commands of a process over a state: a command ends with a result, or the process ends in it (an
-- access violation, or the handler of an invalid parameter). The state stands in both.
use mathlib.Core.Path.{◌≡◌, refl, subst}

pub data Run (S A : Type 0) : Type 0 where
  ok : A → S → Run S A
  crash : S → Run S A

abbrev pub Cmd : Type 0 → Type 0 → Type 0
Cmd S A = S → Run S A

module _ {S : Type 0} where
  abbrev pub pure : {A : Type 0} → A → Cmd S A
  pure a s = ok a s

  abbrev pub abort : {A : Type 0} → Cmd S A
  abort s = crash s

  abbrev pub get : Cmd S S
  get s = ok s s

  abbrev pub gets : {A : Type 0} → (S → A) → Cmd S A
  gets f s = ok (f s) s

  abbrev pub modify : (S → S) → Cmd S (Unit {0})
  modify f s = ok tt (f s)

  abbrev pub and_then : {A B : Type 0} → Run S A → (A → Cmd S B) → Run S B
  and_then (ok a s) f = f a s
  and_then (crash s) f = crash s

  infixl 5 ◌>>=◌ ◌>>◌
  abbrev pub ◌>>=◌ : {A B : Type 0} → Cmd S A → (A → Cmd S B) → Cmd S B
  ◌>>=◌ m f s = and_then (m s) f

  abbrev pub ◌>>◌ : {A B : Type 0} → Cmd S A → Cmd S B → Cmd S B
  m >> k = m >>= λ _. k

-- The command ends with a result and a state that satisfy `P`.
abbrev pub Ends : {S A : Type 0} → (A → S → Type 0) → Run S A → Type 0
Ends P (ok a s) = P a s
Ends P (crash s) = ⊥

pub Ends-mono :
    {S A : Type 0} {P Q : A → S → Type 0} (r : Run S A)
    → Ends P r
    → ((a : A) (s : S) → P a s → Q a s)
    → Ends Q r
Ends-mono (ok a s) p f = f a s p
Ends-mono (crash s) p f = p

pub Ends-both :
    {S A : Type 0} (P Q : A → S → Type 0) (r : Run S A)
    → Ends P r
    → Ends Q r
    → Ends (λ a s. P a s × Q a s) r
Ends-both P Q (ok a s) p q = (p, q)
Ends-both P Q (crash s) p q = p

-- What an ended command ended with.
pub Ends-run :
    {S A : Type 0} (P : A → S → Type 0) (r : Run S A)
    → Ends P r
    → (a : A) × (s : S) × (r ≡ ok a s) × P a s
Ends-run P (ok a s) p = (a, s, refl, p)
Ends-run P (crash s) p = absurd p

-- The process ends, in a state that satisfies `P`.
abbrev pub Crashes : {S A : Type 0} → (S → Type 0) → Run S A → Type 0
Crashes P (ok a s) = ⊥
Crashes P (crash s) = P s

-- How the command returns, and how the process ends in it.
abbrev pub Outcome : {S A : Type 0} → (A → S → Type 0) → (S → Type 0) → Run S A → Type 0
Outcome P Q (ok a s) = P a s
Outcome P Q (crash s) = Q s

pub Outcome-bind :
    {S A B : Type 0} (P : A → S → Type 0) (Q : S → Type 0) (R : B → S → Type 0) (r : Run S A)
    (f : A → Cmd S B)
    → Outcome P Q r
    → ((a : A) (s : S) → P a s → Outcome R Q (f a s))
    → Outcome R Q (and_then r f)
Outcome-bind P Q R (ok a s) f p next = next a s p
Outcome-bind P Q R (crash s) f p next = p

pub Outcome-mono :
    {S A : Type 0} (P P' : A → S → Type 0) (Q : S → Type 0) (r : Run S A)
    → Outcome P Q r
    → ((a : A) (s : S) → P a s → P' a s)
    → Outcome P' Q r
Outcome-mono P P' Q (ok a s) p f = f a s p
Outcome-mono P P' Q (crash s) p f = p

pub Outcome-ok :
    {S A : Type 0} (P : A → S → Type 0) (Q : S → Type 0) {r : Run S A} {a : A} {s : S}
    → r ≡ ok a s
    → Outcome P Q r
    → P a s
Outcome-ok P Q e h = subst (Outcome P Q) e h

pub Outcome-any : {S A : Type 0} (r : Run S A) → Outcome (λ _ _. Unit) (λ _. Unit) r
Outcome-any (ok a s) = tt
Outcome-any (crash s) = tt

pub Ends-ok :
    {S A : Type 0} (P : A → S → Type 0) {r : Run S A} {a : A} {s : S}
    → r ≡ ok a s
    → Ends P r
    → P a s
Ends-ok P e h = subst (Ends P) e h

pub Ends-bind :
    {S A B : Type 0} (P : A → S → Type 0) (R : B → S → Type 0) (r : Run S A) (f : A → Cmd S B)
    → Ends P r
    → ((a : A) (s : S) → P a s → Ends R (f a s))
    → Ends R (and_then r f)
Ends-bind P R (ok a s) f p next = next a s p
Ends-bind P R (crash s) f p next = absurd p
