-- ===== src/Serializer/Generation/Once.antt =====
-- The cache and the files of the generated metadata over a run of PHP
-- (Classes/Service/SerializerMetadataService.php, generateAutoloadForClass).
use t3api.Base.{
  Option, none, some, ◌⊎◌, eq_refl, String, Bool, true, false, not, ◌&&◌, Bool-cases, List, [], ◌∷◌,
  ◌≡◌, refl, inl, inr, arith,
}
use t3api.Base.Text.{in_array}
use t3api.Result.{Result, ok, thrown}
use t3api.Action.{lift, continue, ◌>>=◌}
use t3api.Serializer.Generation.{
  get_autogenerated_file_path, Classes, Generated, is_autoload_generated, write, generate_class,
  generate_classes, get_class_hierarchy, generate_autoload_for_class, clear_cache,
}

-- no text twice
abbrev pub Distinct : List String → Type 0
Distinct [] = Unit
Distinct (c ∷ cs) = (in_array c cs ≡ false) × Distinct cs

module _ (classes : Classes) where
  open classes use {Metadata, metadata, reflect, stores}

  -- a class has a file
  abbrev pub HasFile : Generated classes → String → Type 0
  HasFile s c = is_autoload_generated classes c s ≡ true

  -- Each class of a part of the cache has its file, unless that could not be stored after the earlier ones.
  abbrev pub HasFiles : Generated classes → List String → Type 0
  HasFiles s [] = Unit
  HasFiles s (c ∷ cs) = (HasFile s c ⊎ (stores cs c ≡ false)) × HasFiles s cs

  -- No class was generated twice, and unless the files were cleared, each that was has its file or that could
  -- not be stored.
  abbrev pub IsOnce : Bool → Generated classes → Type 0
  IsOnce cleared s = Distinct s.cache × ((cleared ≡ true) ⊎ HasFiles s s.cache)

  -- The states of a run of PHP, and whether the caches were cleared in it: it starts with an empty cache and
  -- any files, and calls generate, or clear, as often and in such ways as they will.
  pub data Reachable : Bool → Generated classes → Type 0 where
    start :
        (files : List (String × Metadata)) → Reachable false (record { cache = []; files = files })
    called :
        (debug_mode : Bool) (c : String) (cleared : Bool) (s : Generated classes)
        → Reachable cleared s
        → Reachable cleared (generate_autoload_for_class classes debug_mode c s).1
    emptied :
        (command : Option String) (cleared : Bool) (s : Generated classes)
        → Reachable cleared s
        → Reachable true (clear_cache classes command s)

  HasFile-write :
      (c : String) (m : Metadata) (s : Generated classes)
      → HasFile (write classes c m s).1 c ⊎ (stores s.cache c ≡ false)
  HasFile-write c m s = elim (Bool-cases (stores s.cache c)) [
    | inl e ↦ inl (rw (e, eq_refl (get_autogenerated_file_path classes c)) refl)
    | inr e ↦ inr e
  ]

  -- the files are kept
  Grows : Generated classes → Generated classes → Type 0
  Grows s s' = (d : String) → HasFile s d → HasFile s' d

  HasFiles-Grows :
      (s s' : Generated classes) (ds : List String) → Grows s s' → HasFiles s ds → HasFiles s' ds
  unfolding Grows
  HasFiles-Grows s s' [] g h = tt
  HasFiles-Grows s s' (d ∷ ds) g (inl h, k) = (inl (g d h), HasFiles-Grows s s' ds g k)
  HasFiles-Grows s s' (d ∷ ds) g (inr h, k) = (inr h, HasFiles-Grows s s' ds g k)

  Grows-write :
      (c : String) (m : Metadata) (s : Generated classes) → Grows s (write classes c m s).1
  unfolding Grows
  Grows-write c m s d h = ground (arith, h)

  module _ (cleared : Bool) where
    IsOnce-write :
        (c : String) (m : Metadata) (s : Generated classes)
        → in_array c s.cache ≡ false
        → IsOnce cleared s
        → IsOnce cleared (write classes c m s).1
    IsOnce-write c m s e (distinct, inl was) = ((e, distinct), inl was)
    IsOnce-write c m s e (distinct, inr files) = (
      (e, distinct),
      inr (
        HasFile-write c m s,
        HasFiles-Grows s (write classes c m s).1 s.cache (Grows-write c m s) files,
      ),
    )

    IsOnce-written :
        (c : String) (s : Generated classes) (r : Result Metadata)
        → in_array c s.cache ≡ false
        → IsOnce cleared s
        → IsOnce cleared ((lift r >>= write classes c) s).1
    IsOnce-written c s (thrown t) e h = h
    IsOnce-written c s (ok m) e h = IsOnce-write c m s e h

    IsOnce-class :
        (c : String) (s : Generated classes)
        → IsOnce cleared s
        → IsOnce cleared (generate_class classes c s).1
    unfolding generate_class
    IsOnce-class c s h = elim (Bool-cases (in_array c s.cache)) [
      | inl e ↦ rw e h
      | inr e ↦ rw e (IsOnce-written c s (metadata c) e h)
    ]

    IsOnce-continue :
        (cs : List String) (r : Result (Unit {0})) (s : Generated classes)
        → IsOnce cleared s
        → IsOnce cleared (generate_classes classes cs s).1
        → IsOnce cleared (continue r (λ _. generate_classes classes cs) s).1
    IsOnce-continue cs (thrown t) s h k = h
    IsOnce-continue cs (ok u) s h k = k

    IsOnce-classes :
        (cs : List String) (s : Generated classes)
        → IsOnce cleared s
        → IsOnce cleared (generate_classes classes cs s).1
    unfolding generate_classes
    IsOnce-classes [] s h = h
    IsOnce-classes (c ∷ cs) s h =
        let k = IsOnce-class c s h in
        IsOnce-continue cs (generate_class classes c s).0 (generate_class classes c s).1 k
          (IsOnce-classes cs _ k)

    IsOnce-generate :
        (debug_mode : Bool) (c : String) (s : Generated classes)
        → IsOnce cleared s
        → IsOnce cleared (generate_autoload_for_class classes debug_mode c s).1
    unfolding generate_autoload_for_class
    IsOnce-generate debug_mode c s h =
        elim (Bool-cases (is_autoload_generated classes c s && not debug_mode)) [
          | inl e ↦ rw e h
          | inr e ↦ rw e (
              IsOnce-continue (get_class_hierarchy classes c) (reflect c) s h
                (IsOnce-classes (get_class_hierarchy classes c) s h))
        ]

  IsOnce-clear :
      (command : Option String) (s : Generated classes)
      → Distinct s.cache
      → IsOnce true (clear_cache classes command s)
  unfolding clear_cache
  IsOnce-clear none s h = (h, inl refl)
  IsOnce-clear (some command) s h = elim (Bool-cases (in_array command ("all" ∷ "system" ∷ []))) [
    | inl e ↦ rw e (h, inl refl)
    | inr e ↦ rw e (h, inl refl)
  ]

  -- In a run of PHP, whatever calls are made, with and without the mode for debugging, and whether they
  -- return or throw, the metadata of no class is generated twice; and unless the caches were cleared in the run,
  -- each class for which it was generated has its file, or the file could not be stored.
  pub Reachable-IsOnce :
      (cleared : Bool) (s : Generated classes) → Reachable cleared s → IsOnce cleared s
  Reachable-IsOnce _ _ (start files) = (tt, inr tt)
  Reachable-IsOnce _ _ (called debug_mode c cleared s r) =
      IsOnce-generate cleared debug_mode c s (Reachable-IsOnce cleared s r)
  Reachable-IsOnce _ _ (emptied command cleared s r) =
      IsOnce-clear command s (Reachable-IsOnce cleared s r).0
