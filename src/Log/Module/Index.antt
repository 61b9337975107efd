-- ===== src/Log/Module/Index.antt =====
-- The index that `saveLogIndex` stores, as `getLogCurrentIndex` reads it.
use mathlib.Core.Path.{subst}
use winservice.Base.{
  ◌≡◌, ◌≢◌, refl, inl, inr, Bool, true, false, Bool-cases, Text, codes, text_eq, Option, none, some,
  List, [], ◌∷◌, ◌++◌, All, ◌||◌, if◌then◌else◌, arith,
}
use winservice.Log.Env.{LogEnv}
use winservice.Log.Config.{find_in_logs}
use winservice.Log.Module.{add_index, save_in_logs}

abbrev pub OnSome : {A : Type 0} → (A → Type 0) → Option A → Type 0
OnSome P none = Unit
OnSome P (some a) = P a

module _ {W D E : Type 0} (env : LogEnv W D E) where
  open env use {child_elements, value, get_text, clear, link_text, new_element, link_child}

  -- An element whose children were cleared and replaced by a text.
  abbrev pub set_text : E → Text → D → D
  set_text x t d = link_text x t (clear x d)

  -- A new element with a text, linked behind the children of another.
  abbrev pub added : Text → D → E
  added name d = (new_element name d).0

  abbrev pub add_child : E → Text → Text → D → D
  add_child parent name t d =
      link_child parent (added name d) (link_text (added name d) t (new_element name d).1)

  -- What the code relies on of TinyXML, at the document `d`. Elements are pointers, which can be
  -- compared.
  pub record IsDom (d : D) : Type 0 where
    pub same : Discrete E
    pub set_value : (x e : E) (t : Text) → value (set_text x t d) e ≡ value d e
    pub set_children :
        (x e : E) (t : Text) → e ≢ x → child_elements (set_text x t d) e ≡ child_elements d e
    pub set_get_text : (x : E) (t : Text) → get_text (set_text x t d) x ≡ some t
    pub add_name : (p : E) (n t : Text) → value (add_child p n t d) (added n d) ≡ n
    pub add_value : (p e : E) (n t : Text) → e ≢ added n d → value (add_child p n t d) e ≡ value d e
    pub add_self :
        (p : E) (n t : Text)
        → p ≢ added n d
        → child_elements (add_child p n t d) p ≡ child_elements d p ++ added n d ∷ []
    pub add_children :
        (p e : E) (n t : Text)
        → e ≢ p
        → e ≢ added n d
        → child_elements (add_child p n t d) e ≡ child_elements d e
    pub add_get_text : (p : E) (n t : Text) → get_text (add_child p n t d) (added n d) ≡ some t

  abbrev pub index_name : Text
  index_name = codes "Index"

  abbrev pub log_name : Text
  log_name = codes "Log"

  module _ (d : D) where
    -- The last "Log" element, behind one seen before.
    unfoldable pub last_log : Option E → List E → Option E
    last_log seen [] = seen
    last_log seen (e ∷ es) =
        if text_eq log_name (value d e) then last_log (some e) es else last_log seen es

    unfoldable pub any_log : List E → Bool
    any_log [] = false
    any_log (e ∷ es) = text_eq log_name (value d e) || any_log es

    pub last_log-seen :
        (seen : Option E) (es : List E) → any_log es ≡ false → last_log seen es ≡ seen
    unfolding last_log any_log
    last_log-seen seen [] h = refl
    last_log-seen seen (e ∷ es) h = ground (arith, last_log-seen seen es)

    pub last_log-some :
        (seen : Option E) (es : List E) → any_log es ≡ true → (l : E) × (last_log seen es ≡ some l)
    unfolding last_log any_log
    last_log-some seen [] h = cc
    last_log-some seen (e ∷ es) h = elim (Bool-cases (any_log es)) [
      | inl more ↦ elim (Bool-cases (text_eq log_name (value d e))) [
        | inl log ↦ rw log (last_log-some (some e) es more)
        | inr other ↦ rw other (last_log-some seen es more)
      ]
      | inr rest ↦ elim (Bool-cases (text_eq log_name (value d e))) [
        | inl log ↦ (e, rw log (last_log-seen (some e) es rest))
        | inr other ↦ cc (h)
      ]
    ]

    pub last_log-All :
        (P : E → Type 0) (seen : Option E) (es : List E) (l : E)
        → OnSome P seen
        → All P es
        → last_log seen es ≡ some l
        → P l
    unfolding last_log
    last_log-All P none [] l p h e = cc
    last_log-All P (some s) [] l p h e = let q : s ≡ l = ground arith in subst P q p
    last_log-All P seen (e ∷ es) l p h last = elim (Bool-cases (text_eq log_name (value d e))) [
      | inl log ↦ last_log-All P (some e) es l h.0 h.1 (ground arith)
      | inr other ↦ last_log-All P seen es l p h.1 (ground arith)
    ]

  module _ (d : D) (t : Text) where
    pub save_in_logs-found :
        (seen : Option E) (es : List E) (x : E)
        → find_in_logs env d index_name es ≡ some x
        → save_in_logs env d t seen es ≡ set_text x t d
    unfolding save_in_logs find_in_logs
    save_in_logs-found seen [] x h = cc
    save_in_logs-found seen (e ∷ es) x h =
        ground (arith, save_in_logs-found seen es x, save_in_logs-found (some e) es x)

    pub save_in_logs-missing :
        (seen : Option E) (es : List E)
        → find_in_logs env d index_name es ≡ none
        → save_in_logs env d t seen es ≡ add_index env d t (last_log d seen es)
    unfolding save_in_logs find_in_logs last_log
    save_in_logs-missing seen [] h = refl
    save_in_logs-missing seen (e ∷ es) h =
        ground (arith, save_in_logs-missing seen es, save_in_logs-missing (some e) es)

    -- With no "Log" element nothing is stored.
    pub save_in_logs-no_log :
        (es : List E) → any_log d es ≡ false → save_in_logs env d t none es ≡ d
    unfolding save_in_logs any_log add_index
    save_in_logs-no_log [] h = refl
    save_in_logs-no_log (e ∷ es) h = ground (arith, save_in_logs-no_log es)
