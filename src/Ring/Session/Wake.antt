-- ===== src/Ring/Session/Wake.antt =====
-- When the back end of a ring is notified.
use mathlib.Core.Path.{subst}
use winservice.Base.{
  ℕ, ◌+◌, ◌-◌, ◌≤◌, ◌<◌, ◌==◌, ◌≡◌, refl, inl, inr, true, Bool-cases, ltb, if◌then◌else◌, arith,
}
use winservice.Base.Words.{low32, sub32-low32}
use winservice.Ring.Macros.{check_notify}
use winservice.Ring.Session.{FrontPhase, running, published, BackPhase, awake, armed, asleep, woken}
use winservice.Ring.Session.Invariant.{BackWaits, Waits}

pub publish-BackWaits :
    (phase : BackPhase) (pushed queued taken event : ℕ)
    → BackWaits (taken + 1) pushed taken event phase
    → BackWaits pushed queued taken event phase
publish-BackWaits awake pushed queued taken event w = tt
publish-BackWaits armed pushed queued taken event w = w
publish-BackWaits asleep pushed queued taken event (set, inl none_left) =
    (set, inr (omega (arith, none_left)))
publish-BackWaits asleep pushed queued taken event (set, inr over) = absurd (omega (arith, over))

-- A back end that has set its event is notified of requests that were published behind it.
pub check_notify-crossed :
    (o pushed taken : ℕ)
    → o ≤ taken
    → taken < pushed
    → pushed - o < 4294967296
    → check_notify (low32 o) (low32 pushed) (low32 (taken + 1)) ≡ true
unfolding check_notify
check_notify-crossed o pushed taken old new near =
    rw
      (
        sub32-low32 pushed (taken + 1) (omega arith) (omega arith),
        sub32-low32 pushed o (omega arith) near,
      )
      (ground arith)

pub notify-BackWaits :
    (phase : BackPhase) (o pushed taken event : ℕ)
    → taken ≤ pushed
    → pushed - o < 4294967296
    → BackWaits o pushed taken event phase
    → BackWaits
        (taken + 1)
        pushed
        taken
        event
        (if check_notify (low32 o) (low32 pushed) event then woken phase else phase)
notify-BackWaits awake o pushed taken event behind near w =
    elim (Bool-cases (check_notify (low32 o) (low32 pushed) event)) [
      | inl e ↦ rw e tt
      | inr e ↦ rw e tt
    ]
notify-BackWaits armed o pushed taken event behind near w =
    elim (Bool-cases (check_notify (low32 o) (low32 pushed) event)) [
      | inl e ↦ rw e w
      | inr e ↦ rw e w
    ]
notify-BackWaits asleep o pushed taken event behind near (set, left) =
    elim (Bool-cases (check_notify (low32 o) (low32 pushed) event)) [
      | inl e ↦ rw e tt
      | inr quiet ↦ rw quiet (
        set,
        elim left [
          | inl none_left ↦ inl none_left
          | inr old ↦ elim (Bool-cases (ltb taken pushed)) [
            | inl more ↦
                let crossed = check_notify-crossed o pushed taken old (ground (arith, more)) near in
                absurd (ground (arith, crossed, quiet, set))
            | inr none_more ↦ inl (ground (arith, none_more))
          ]
        ],
      )
    ]

recheck-BackWaits :
    (old pushed taken event : ℕ)
    → taken ≤ pushed
    → BackWaits old pushed taken event armed
    → BackWaits old pushed taken event (if pushed - taken == 0 then asleep else awake)
recheck-BackWaits old pushed taken event behind set = elim (Bool-cases (pushed - taken == 0)) [
  | inl e ↦ rw e (set, inl (ground (arith, e)))
  | inr e ↦ rw e tt
]

-- A back end that is awake waits for nothing, whatever the counters are.
pub awake-Waits :
    (front : FrontPhase) (pushed taken taken' event event' : ℕ) (back : BackPhase)
    → back ≡ awake
    → Waits pushed taken event back front
    → Waits pushed taken' event' back front
awake-Waits running pushed taken taken' event event' back e w = rw e tt
awake-Waits (published old new) pushed taken taken' event event' back e (o, a, b, le, near, w) =
    (o, a, b, le, near, rw e tt)

pub arm-Waits :
    (front : FrontPhase) (pushed taken event : ℕ) (back : BackPhase)
    → Waits pushed taken event back front
    → Waits pushed taken (low32 (taken + 1)) armed front
arm-Waits running pushed taken event back w = refl
arm-Waits (published old new) pushed taken event back (o, a, b, le, near, w) =
    (o, a, b, le, near, refl)

pub recheck-Waits :
    (front : FrontPhase) (pushed taken event : ℕ) (back : BackPhase)
    → back ≡ armed
    → taken ≤ pushed
    → Waits pushed taken event back front
    → Waits pushed taken event (if pushed - taken == 0 then asleep else awake) front
recheck-Waits running pushed taken event back e behind w =
    recheck-BackWaits (taken + 1) pushed taken event behind
      (subst (BackWaits (taken + 1) pushed taken event) e w)
recheck-Waits (published old new) pushed taken event back e behind (o, a, b, le, near, w) = (
  o,
  a,
  b,
  le,
  near,
  recheck-BackWaits o pushed taken event behind (subst (BackWaits o pushed taken event) e w),
)
