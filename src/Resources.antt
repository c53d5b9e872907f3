-- ===== src/Resources.antt =====
-- Classes/Domain/Repository/ApiResourceRepository.php and Classes/Response/MainEndpointResponse.php.
pub mod Laws
use t3api.Base.{
  String, Bool, true, false, not, ◌&&◌, Option, none, some, List, [], ◌∷◌, ◌++◌, keep, ◌==◌,
  if◌then◌else◌,
}
use t3api.Result.{Result, ok, thrown, ◌>>=◌}
use t3api.Action.{Action}
use t3api.Domain.Operation.{Operation}
use t3api.Domain.Resource.{ApiResource, get_main_collection_operation}

-- The files that the providers list, and what is made of a file and of a class.
pub record Sources : Type 0 where
  pub files : List String
  -- `ReflectionService::getClassNameFromFile`
  pub class_name_from_file : String → Option String
  -- `is_subclass_of($className, AbstractDomainObject::class)`
  pub is_domain_object : String → Bool
  -- `createApiResourceFromFqcn`, of the annotations of the class
  pub create : String → Result (Option ApiResource)

-- The cache of TYPO3, by identifier.
abbrev pub Cache : Type 0
Cache = List (String × List ApiResource)

unfoldable pub cached : String → Cache → Option (List ApiResource)
cached id [] = none
cached id ((k, rs) ∷ rest) = if k == id then some rs else cached id rest

module _ (sources : Sources) where
  open sources use {files, class_name_from_file, is_domain_object, create}

  -- one step of `getAllDomainModelClassNames`, with the class names after it
  abbrev class_name_then : Option String → List String → List String
  class_name_then none rest = rest
  class_name_then (some name) rest = if name == "" then rest else name ∷ rest

  abbrev class_names_of : List String → List String
  class_names_of [] = []
  class_names_of (f ∷ fs) = class_name_then (class_name_from_file f) (class_names_of fs)

  abbrev get_all_domain_model_class_names : List String
  get_all_domain_model_class_names = class_names_of files

  unfoldable pub get_all_domain_models : List String
  get_all_domain_models = keep is_domain_object get_all_domain_model_class_names

  -- `array_filter`: what is null is left out.
  abbrev found_then : Option ApiResource → List ApiResource → List ApiResource
  found_then none rest = rest
  found_then (some r) rest = r ∷ rest

  unfoldable pub create_all : List String → Result (List ApiResource)
  create_all [] = ok []
  create_all (c ∷ cs) = do r ← create c; rs ← create_all cs; ok (found_then r rs)

  abbrev store : String → Result (List ApiResource) → Action Cache (List ApiResource)
  store id (thrown e) s = (thrown e, s)
  store id (ok rs) s = (ok rs, (id, rs) ∷ s)

  abbrev pub from_cache : String → Option (List ApiResource) → Action Cache (List ApiResource)
  from_cache id (some rs) s = (ok rs, s)
  from_cache id none s = store id (create_all get_all_domain_models) s

  unfoldable pub get_all : String → Action Cache (List ApiResource)
  unfolding cached get_all_domain_models create_all
  get_all id s = from_cache id (cached id s) s

-- the loop of `getByEntity`
unfoldable pub get_by_entity : String → List ApiResource → Option ApiResource
get_by_entity name [] = none
get_by_entity name (r ∷ rs) = if r.entity == name then some r else get_by_entity name rs

-- `$resources[$entity] = $path`
unfoldable pub set_path : String → String → List (String × String) → List (String × String)
set_path entity path [] = (entity, path) ∷ []
set_path entity path ((e, p) ∷ rest) =
    let others = set_path entity path rest in
    if e == entity then (e, path) ∷ rest else (e, p) ∷ others

-- the loop of `getResources`
unfoldable pub get_resources : List ApiResource → List (String × String) → List (String × String)
unfolding set_path get_main_collection_operation
get_resources [] paths = paths
get_resources (r ∷ rs) paths = elim (get_main_collection_operation r) [
  | none ↦ get_resources rs paths
  | some o ↦ get_resources rs (set_path r.entity o.route.path paths)
]
