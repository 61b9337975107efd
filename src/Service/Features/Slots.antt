-- ===== src/Service/Features/Slots.antt =====
-- The slots of the feature set.
use winservice.Base.{
  ℕ, zero, suc, ◌+◌, ◌<◌, ◌≤◌, ◌==◌, ◌≡◌, refl, ap, ◌∙◌, ◌⊎◌, inl, inr, Bool-cases, Option-cases,
  Option, none, some, List, [], ◌∷◌, length, codes, arith,
}
use winservice.Service.Env.{warn, ServiceEnv}
use winservice.Service.Features.{
  WatchFeature, WatchFeatureSet, max_features, get_elem?, set, add_feature,
}

length-set : (xs : List WatchFeature) (i : ℕ) (v : WatchFeature) → length (set xs i v) ≡ length xs
length-set [] i v = refl
length-set (x ∷ xs) zero v = refl
length-set (x ∷ xs) (suc i) v = ap suc (length-set xs i v)

get_elem?-set_other :
    (xs : List WatchFeature) (i n : ℕ) (v : WatchFeature)
    → i < n
    → get_elem? (set xs n v) i ≡ get_elem? xs i
get_elem?-set_other [] i n v lt = refl
get_elem?-set_other (x ∷ xs) i zero v lt = ground arith
get_elem?-set_other (x ∷ xs) zero (suc n) v lt = refl
get_elem?-set_other (x ∷ xs) (suc i) (suc n) v lt = get_elem?-set_other xs i n v (omega arith)

get_elem?-none : (xs : List WatchFeature) (i : ℕ) → get_elem? xs i ≡ none → length xs ≤ i
get_elem?-none [] i e = omega arith
get_elem?-none (x ∷ xs) zero e = ground arith
get_elem?-none (x ∷ xs) (suc i) e = let rest = get_elem?-none xs i e in omega (arith, rest)

-- The array has its size, and its used slots are within it.
pub record IsValid (wfs : WatchFeatureSet) : Type 0 where
  pub size : length wfs.features ≡ max_features
  pub used : wfs.nr_features ≤ max_features

-- At most one slot more is used, and the slots that were used are as before.
pub record Extends (before after : WatchFeatureSet) : Type 0 where
  pub grown :
      (after.nr_features ≡ before.nr_features) ⊎ (after.nr_features ≡ before.nr_features + 1)
  pub old_slots :
      (i : ℕ) → i < before.nr_features → get_elem? after.features i ≡ get_elem? before.features i

-- The set with its next slot filled in.
abbrev filled :
    (flag name handler ctx : Option ℕ) → WatchFeature → WatchFeatureSet → WatchFeatureSet
filled flag name handler ctx f wfs = record {
  features =
      set wfs.features wfs.nr_features
        (record f { feature_flag = flag; handler = handler; ctx = ctx; name = name });
  nr_features = wfs.nr_features + 1;
}

module _ {W : Type 0} (env : ServiceEnv W) where
  open env use {write_log}

  -- On a valid set `AddFeature` never indexes outside the array; the set stays valid, grows by one
  -- feature at most, and the features that it had stay as they are.
  pub add_feature-IsValid :
      (flag name handler ctx : Option ℕ) (wfs : WatchFeatureSet) (w : W)
      → IsValid wfs
      → (out : WatchFeatureSet) × (v : W) × (add_feature env flag name handler ctx wfs w
          ≡ some (out, v))
        × IsValid out
        × Extends wfs out
  unfolding add_feature
  add_feature-IsValid flag name handler ctx wfs w valid =
      let unchanged : Extends wfs wfs = record { grown = inl refl; old_slots = λ _ _. refl } in
      elim (Bool-cases (wfs.nr_features == max_features)) [
        | inl full ↦
            (wfs, write_log warn (codes "Too many features!") w, rw full refl, valid, unchanged)
        | inr room ↦ elim (Option-cases (get_elem? wfs.features wfs.nr_features)) [
          | inl outside ↦
              let past = get_elem?-none wfs.features wfs.nr_features outside in
              let size = valid.size in
              let used = valid.used in ground (arith, past, size, used, room)
          | inr (f, slot) ↦ elim (Option-cases f.watch) [
            | inl e ↦ (
              wfs,
              write_log warn (codes "EstablishWatch() for AddFeature()") w,
              rw (room, slot, e) refl,
              valid,
              unchanged,
            )
            | inr (watch, e) ↦ (
              filled flag name handler ctx (record f { watch = some watch }) wfs,
              w,
              rw (room, slot, e)
                  (ap (λ x. some (filled flag name handler ctx (record f { watch = x }) wfs, w)) e),
              record {
                size = length-set wfs.features wfs.nr_features _ ∙ valid.size;
                used = (let used = valid.used in ground (arith, used, room));
              },
              record {
                grown = inr refl;
                old_slots = λ i lt. get_elem?-set_other wfs.features i wfs.nr_features _ lt;
              },
            )
          ]
        ]
      ]
