-- ===== src/Log/Module/Stored.antt =====
-- How the search of the getters sees a document in which an index was stored.
use mathlib.Core.Path.{subst}
use winservice.Base.{
  ◌≡◌, ◌≢◌, refl, sym, ap, ◌∙◌, inl, inr, true, false, Bool-cases, Text, text_eq, Option, none,
  some, List, [], ◌∷◌, ◌++◌, All, arith,
}
use winservice.Base.Strings.{text_eq_iff, text_eq_refl}
use winservice.Log.Env.{LogEnv}
use winservice.Log.Config.{find_named, find_in_logs}
use winservice.Log.Module.Index.{
  IsDom, set_text, added, add_child, index_name, log_name, last_log, any_log, last_log-seen,
}

module _ {W D E : Type 0} (env : LogEnv W D E) (d : D) (dom : IsDom env d) (t : Text) where
  open env use {child_elements, value}

  module _ (x : E) (is_index : value d x ≡ index_name env) where
    find_named-set :
        (name : Text) (es : List E)
        → find_named env (set_text env x t d) name es ≡ find_named env d name es
    unfolding find_named
    find_named-set name [] = refl
    find_named-set name (e ∷ es) = rw (dom.set_value x e t, find_named-set name es)

    log-ne : (e : E) → text_eq (log_name env) (value d e) ≡ true → e ≢ x
    log-ne e h same =
        ground (arith, (text_eq_iff (log_name env) (value d e)).0 h, ap (value d) same, is_index)

    pub find_in_logs-set :
        (name : Text) (es : List E)
        → find_in_logs env (set_text env x t d) name es ≡ find_in_logs env d name es
    unfolding find_in_logs
    find_in_logs-set name [] = refl
    find_in_logs-set name (e ∷ es) = elim (Bool-cases (text_eq (log_name env) (value d e))) [
      | inl log ↦ ground (
        arith,
        log,
        dom.set_value x e t,
        dom.set_children x e t (log-ne e log),
        find_named-set name (child_elements d e),
        find_in_logs-set name es,
      )
      | inr other ↦ ground (arith, other, dom.set_value x e t, find_in_logs-set name es)
    ]

  module _ (l : E) where
    abbrev new : E
    new = added env (index_name env) d

    abbrev stored : D
    stored = add_child env l (index_name env) t d

    find_named-add :
        (es : List E)
        → All (λ e. e ≢ new) es
        → find_named env stored (index_name env) es ≡ find_named env d (index_name env) es
    unfolding find_named
    find_named-add [] h = refl
    find_named-add (e ∷ es) h = rw (dom.add_value l e (index_name env) t h.0, find_named-add es h.1)

    find_named-new :
        (es : List E)
        → All (λ e. e ≢ new) es
        → find_named env d (index_name env) es ≡ none
        → find_named env stored (index_name env) (es ++ new ∷ []) ≡ some new
    unfolding find_named
    find_named-new [] h e = rw (dom.add_name l (index_name env) t, text_eq_refl (index_name env))
    find_named-new (c ∷ es) h e =
        ground (arith, dom.add_value l c (index_name env) t h.0, find_named-new es h.1)

    -- The element that the index was linked to.
    step_self :
        (e : E)
        → e ≡ l
        → e ≢ new
        → All (λ c. c ≢ new) (child_elements d e)
        → find_named env d (index_name env) (child_elements d e) ≡ none
        → find_named env stored (index_name env) (child_elements stored e) ≡ some new
    step_self e p fresh kids missing =
        let linked : child_elements stored e ≡ child_elements d e ++ new ∷ [] =
          subst (λ z. child_elements stored z ≡ child_elements d z ++ new ∷ []) (sym p)
            (dom.add_self l (index_name env) t (subst (λ z. z ≢ new) p fresh)) in
        rw linked (find_named-new (child_elements d e) kids missing)

    -- An element before it.
    step_other :
        (e : E)
        → e ≢ l
        → e ≢ new
        → All (λ c. c ≢ new) (child_elements d e)
        → find_named env d (index_name env) (child_elements d e) ≡ none
        → find_named env stored (index_name env) (child_elements stored e) ≡ none
    step_other e p fresh kids missing =
        rw (dom.add_children l e (index_name env) t p fresh)
          (find_named-add (child_elements d e) kids ∙ missing)

    last_is_seen :
        (e : E) (es : List E)
        → any_log env d es ≡ false
        → last_log env d (some e) es ≡ some l
        → e ≡ l
    last_is_seen e es rest last = ground (arith, last_log-seen env d (some e) es rest)

    pub find_in_logs-add :
        (seen : Option E) (es : List E)
        → All (λ e. (e ≢ new) × All (λ c. c ≢ new) (child_elements d e)) es
        → find_in_logs env d (index_name env) es ≡ none
        → last_log env d seen es ≡ some l
        → any_log env d es ≡ true
        → find_in_logs env stored (index_name env) es ≡ some new
    unfolding find_in_logs last_log any_log
    find_in_logs-add seen [] known missing last log = cc
    find_in_logs-add seen (e ∷ es) known missing last log =
        let same_name = dom.add_value l e (index_name env) t known.0.0 in
        elim (Bool-cases (text_eq (log_name env) (value d e))) [
          | inr other ↦ ground (arith, other, same_name, find_in_logs-add seen es known.1)
          | inl here ↦
              let none_here : find_named env d (index_name env) (child_elements d e) ≡ none =
                ground arith in
              let none_later : find_in_logs env d (index_name env) es ≡ none = ground arith in
              let last' : last_log env d (some e) es ≡ some l = ground arith in
              elim (dom.same e l) [
                | yes p ↦ ground (arith, same_name, step_self e p known.0.0 known.0.1 none_here)
                | no p ↦ elim (Bool-cases (any_log env d es)) [
                  | inr rest ↦ absurd (p (last_is_seen e es rest last'))
                  | inl more ↦ ground (
                    arith,
                    same_name,
                    step_other e p known.0.0 known.0.1 none_here,
                    find_in_logs-add (some e) es known.1 none_later last' more,
                  )
                ]
              ]
        ]
