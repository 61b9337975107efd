-- ===== src/Service/Features.antt =====
-- `AddFeature` of vTopGuestAgent/main.cpp with its feature set.
pub mod Slots
use winservice.Base.{
  ℕ, zero, suc, ◌+◌, ◌==◌, Text, codes, Option, none, some, List, [], ◌∷◌, length, if◌then◌else◌,
}
use winservice.Service.Env.{Level, warn, ServiceEnv}

-- A pointer is a number, and `none` NULL.
pub record WatchFeature : Type 0 where
  pub watch : Option ℕ
  pub feature_flag : Option ℕ
  pub name : Option ℕ
  pub handler : Option ℕ
  pub ctx : Option ℕ

abbrev pub max_features : ℕ
max_features = 10

-- `features` has `max_features` items.
pub record WatchFeatureSet : Type 0 where
  pub features : List WatchFeature
  pub nr_features : ℕ

abbrev pub get_elem? : List WatchFeature → ℕ → Option WatchFeature
get_elem? [] i = none
get_elem? (x ∷ xs) zero = some x
get_elem? (x ∷ xs) (suc i) = get_elem? xs i

abbrev pub set : List WatchFeature → ℕ → WatchFeature → List WatchFeature
set [] i v = []
set (x ∷ xs) zero v = v ∷ xs
set (x ∷ xs) (suc i) v = x ∷ set xs i v

module _ {W : Type 0} (env : ServiceEnv W) where
  open env use {write_log}

  -- The arguments are the flag, the name, the handler and its context; the path is not used. An index
  -- outside the array would be a fault, here `none`.
  unfoldable pub add_feature :
      (flag name handler ctx : Option ℕ) → WatchFeatureSet → W → Option (WatchFeatureSet × W)
  add_feature flag name handler ctx wfs w =
      if wfs.nr_features == max_features
      then some (wfs, write_log warn (codes "Too many features!") w)
      else elim (get_elem? wfs.features wfs.nr_features) [
        | none ↦ none
        | some f ↦ elim f.watch [
          | none ↦ some (wfs, write_log warn (codes "EstablishWatch() for AddFeature()") w)
          | some _ ↦ some (
            record {
              features =
                  set wfs.features wfs.nr_features
                    (record f { feature_flag = flag; handler = handler; ctx = ctx; name = name });
              nr_features = wfs.nr_features + 1;
            },
            w,
          )
        ]
      ]
