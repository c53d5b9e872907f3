-- ===== src/Serializer/Generation.antt =====
-- Classes/Service/SerializerMetadataService.php: generateAutoloadForClass and getClassHierarchy.
pub mod Hierarchy
pub mod Once
use Prim.Native.String
use t3api.Base.{
  ℕ, zero, suc, ◌<◌, String, Bool, true, false, not, ◌&&◌, ◌||◌, Option, none, some, List, [], ◌∷◌,
  ◌++◌, ◌≡◌, ◌==◌, any, if◌then◌else◌,
}
use t3api.Base.Text.{backslashes_to_dots, concat, concat, in_array, map_chars}
use t3api.Result.{Result, ok, thrown}
use t3api.Action.{Action, pure, lift, ◌>>=◌, ◌>>◌}

-- The classes of PHP, none of which is its own ancestor, and what is read of them.
pub record Classes : Type 1 where
  -- `new \ReflectionClass($class)` throws where there is no such class.
  pub reflect : String → Result (Unit {0})
  -- `getParentClass`
  pub parent : String → Option String
  pub depth : String → ℕ
  pub depth-parent : (c p : String) → parent c ≡ some p → depth p < depth c
  pub Metadata : Type 0
  -- `array_replace_recursive(getForClass(…), getMetadataFromMetadataDirs(…))`; the first is `get_for_class`
  -- of Properties, the second what the files of the configuration say of the class
  pub metadata : String → Result Metadata
  -- whether `file_put_contents` and `rename` succeed for a class, after the others were generated; where they
  -- fail they raise a warning and nothing is done about it
  pub stores : List String → String → Bool
  -- `SerializerService::getAutogeneratedMetadataDirectory`
  pub directory : String

-- `array_reverse`
abbrev pub reversed : List String → List String
reversed [] = []
reversed (c ∷ cs) = reversed cs ++ c ∷ []

module _ (classes : Classes) where
  open classes use {reflect, parent, depth, Metadata, metadata, stores, directory}

  -- The loop over the parents, from a class on: a class has no more ancestors than its depth.
  unfoldable pub collect_classes : ℕ → String → List String
  collect_classes zero c = c ∷ []
  collect_classes (suc n) c = elim (parent c) [ none ↦ c ∷ [] | some p ↦ c ∷ collect_classes n p ]

  unfoldable pub get_class_hierarchy : String → List String
  unfolding collect_classes
  get_class_hierarchy c = reversed (collect_classes (depth c) c)

  -- The static cache of class names, the last one first, and the files that were written, the same way.
  pub record Generated : Type 0 where
    pub cache : List String
    pub files : List (String × Metadata)

  unfoldable pub get_autogenerated_file_path : String → String
  unfolding backslashes_to_dots
  get_autogenerated_file_path c = concat (directory ∷ "/" ∷ backslashes_to_dots c ∷ ".yml" ∷ [])

  abbrev is_at : String → String × Metadata → Bool
  is_at p (q, _) = p == q

  -- `isAutoloadGenerated`
  abbrev pub is_autoload_generated : String → Generated → Bool
  is_autoload_generated c s = any (is_at (get_autogenerated_file_path c)) s.files

  -- The file is written under another name and renamed. The class is cached also where that fails.
  abbrev pub write : String → Metadata → Action Generated (Unit {0})
  write c m s = (
    ok tt,
    record {
      cache = c ∷ s.cache;
      files = if stores s.cache c then (get_autogenerated_file_path c, m) ∷ s.files else s.files;
    },
  )

  -- `SerializerService::clearCache`, given `$params['cacheCmd']`: the files are removed, the static cache is not
  unfoldable pub clear_cache : Option String → Generated → Generated
  clear_cache none s = s
  clear_cache (some command) s =
      if in_array command ("all" ∷ "system" ∷ []) then record s { files = [] } else s

  -- the body of the loop
  unfoldable pub generate_class : String → Action Generated (Unit {0})
  generate_class c s =
      let written = (lift (metadata c) >>= write c) s in
      if in_array c s.cache then (ok tt, s) else written

  unfoldable pub generate_classes : List String → Action Generated (Unit {0})
  unfolding generate_class
  generate_classes [] = pure tt
  generate_classes (c ∷ cs) = do generate_class c; generate_classes cs

  unfoldable pub generate_autoload_for_class : Bool → String → Action Generated (Unit {0})
  unfolding generate_classes get_class_hierarchy
  generate_autoload_for_class debug_mode c s =
      let generated = (lift (reflect c) >> generate_classes (get_class_hierarchy c)) s in
      if is_autoload_generated c s && not debug_mode then (ok tt, s) else generated
