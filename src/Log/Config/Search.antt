-- ===== src/Log/Config/Search.antt =====
-- Which element of the configuration the getters read.
use mathlib.Core.Path.{subst}
use winservice.Base.{
  ◌≡◌, ◌≢◌, refl, sym, ap, ◌∙◌, inl, inr, false, Bool-cases, Option-cases, Text, codes, text_eq,
  Option, none, some, List, [], ◌∷◌, ◌++◌, All, if◌then◌else◌, arith,
}
use winservice.Base.Strings.{text_eq_iff}
use winservice.Log.Env.{LogEnv}
use winservice.Log.Config.{find_named, find_in_logs, find_setting}

module _ {W D E : Type 0} (env : LogEnv W D E) (d : D) where
  open env use {child_elements, value}

  -- The children of the "Log" elements of a list, in document order.
  unfoldable pub log_entries : List E → List E
  log_entries [] = []
  log_entries (e ∷ es) =
      if text_eq (codes "Log") (value d e)
      then child_elements d e ++ log_entries es
      else log_entries es

  -- The first element of the list that has the name, or none if no element has it.
  abbrev pub IsFirst : Text → List E → Option E → Type 0
  IsFirst name es none = All (λ e. value d e ≢ name) es
  IsFirst name es (some x) =
      (before : List E) × (after : List E) × (es ≡ before ++ x ∷ after)
      × (value d x ≡ name)
      × All (λ e. value d e ≢ name) before

  ne_of_eq : (s t : Text) → text_eq s t ≡ false → t ≢ s
  ne_of_eq s t h e = ground (arith, text_eq_iff s t)

  extend :
      (name : Text) (e : E) (es : List E) (found : Option E)
      → value d e ≢ name
      → IsFirst name es found
      → IsFirst name (e ∷ es) found
  extend name e es none ne h = (ne, h)
  extend name e es (some x) ne h = (e ∷ h.0, h.1, ap (λ (l : List E). e ∷ l) h.2, h.3, (ne, h.4))

  pub find_named-IsFirst : (name : Text) (es : List E) → IsFirst name es (find_named env d name es)
  unfolding find_named
  find_named-IsFirst name [] = tt
  find_named-IsFirst name (e ∷ es) = elim (Bool-cases (text_eq name (value d e))) [
    | inl hit ↦ rw hit ([], es, refl, sym ((text_eq_iff name (value d e)).0 hit), tt)
    | inr miss ↦
        rw miss (extend name e es _ (ne_of_eq name (value d e) miss) (find_named-IsFirst name es))
  ]

  find_named-append :
      (name : Text) (es fs : List E)
      → find_named env d name (es ++ fs)
        ≡ elim (find_named env d name es) [ none ↦ find_named env d name fs | some x ↦ some x ]
  unfolding find_named
  find_named-append name [] fs = refl
  find_named-append name (e ∷ es) fs = ground (arith, find_named-append name es fs)

  find_in_logs-find_named :
      (name : Text) (es : List E)
      → find_in_logs env d name es ≡ find_named env d name (log_entries es)
  unfolding find_in_logs log_entries
  find_in_logs-find_named name [] = unfold find_named in refl
  find_in_logs-find_named name (e ∷ es) = ground (
    arith,
    find_in_logs-find_named name es,
    find_named-append name (child_elements d e) (log_entries es),
  )

  -- The two loops of a getter, with their `goto`, find the first element of the name among the
  -- children of the "Log" elements of the module's element, and none only if none has the name.
  pub find_setting-IsFirst :
      (name : Text) (root : E)
      → IsFirst name (log_entries (child_elements d root)) (find_setting env d name root)
  unfolding find_setting
  find_setting-IsFirst name root =
      rw (find_in_logs-find_named name (child_elements d root)) (find_named-IsFirst name _)

  -- What holds of all children of the list's elements holds of the element found.
  find_named-All :
      (P : E → Type 0) (name : Text) (es : List E) (x : E)
      → All P es
      → find_named env d name es ≡ some x
      → P x
  unfolding find_named
  find_named-All P name [] x h e = cc
  find_named-All P name (c ∷ es) x h e = elim (Bool-cases (text_eq name (value d c))) [
    | inl hit ↦ let p : c ≡ x = ground arith in subst P p h.0
    | inr miss ↦ find_named-All P name es x h.1 (ground arith)
  ]

  pub find_in_logs-All :
      (P : E → Type 0) (name : Text) (es : List E) (x : E)
      → All (λ e. All P (child_elements d e)) es
      → find_in_logs env d name es ≡ some x
      → P x
  unfolding find_in_logs
  find_in_logs-All P name [] x h e = cc
  find_in_logs-All P name (c ∷ es) x h e = elim (Bool-cases (text_eq (codes "Log") (value d c))) [
    | inr other ↦ find_in_logs-All P name es x h.1 (ground arith)
    | inl log ↦ elim (Option-cases (find_named env d name (child_elements d c))) [
      | inl none_here ↦ find_in_logs-All P name es x h.1 (ground arith)
      | inr (y, here) ↦
          let p : y ≡ x = ground arith in
          subst P p (find_named-All P name (child_elements d c) y h.0 here)
    ]
  ]

  find_named-value :
      (name : Text) (es : List E) (x : E) → find_named env d name es ≡ some x → value d x ≡ name
  find_named-value name es x e =
      let first : IsFirst name es (some x) =
        subst (IsFirst name es) e (find_named-IsFirst name es) in
      first.3

  pub find_in_logs-value :
      (name : Text) (es : List E) (x : E) → find_in_logs env d name es ≡ some x → value d x ≡ name
  find_in_logs-value name es x e =
      find_named-value name (log_entries es) x (sym (find_in_logs-find_named name es) ∙ e)
