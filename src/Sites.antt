-- ===== src/Sites.antt =====
-- Classes/Service/SiteService.php. The finder and the matcher of sites of TYPO3, and the globals, are an
-- environment that each call is given; the static variables are the state.
pub mod Routes
pub mod Languages
pub mod Paths
pub mod Prefix
pub mod Sticky
use t3api.Base.{
  ℕ, String, Bool, true, false, Option, none, some, List, [], ◌∷◌, ◌==◌, if◌then◌else◌,
}
use t3api.Base.Int.{ℤ}
use t3api.Base.Slashes.{rtrim_slashes}
use t3api.Exception.{runtime}
use t3api.Result.{Result, ok, thrown}
use t3api.Action.{Action, pure, throw, lift, continue, ◌>>=◌}
use t3api.Php.{Value, str, Fields, get}
use t3api.Php.Number.{trim}

-- a language of a site, with the path of its base
pub record SiteLanguage : Type 0 where
  pub language_id : ℤ
  pub base_path : String

-- `Site`: `base` is its base as a text, `route_enhancers` are those of its configuration.
pub record Site : Type 0 where
  pub identifier : String
  pub base : String
  pub route_enhancers : Option (List Fields)
  pub default_language : SiteLanguage

-- `SiteInterface`: a site of the configuration, or another one, such as `NullSite`
pub data AnySite : Type 0 where
  configured : Site → AnySite
  other_site : AnySite

-- A request as PSR-7 has it: `language` is that attribute, absent or of another class where `none`;
-- `get_language_by_id` is that of the attribute `site`, which TYPO3 sets before; and
-- `header_language_request` says that the attribute `t3apiHeaderLanguageRequest` is `true`.
pub record ServerRequest : Type 0 where
  pub path : String
  pub query_params : Fields
  pub get_header : String → List String
  pub get_language_by_id : ℤ → Result SiteLanguage
  pub language : Option SiteLanguage
  pub header_language_request : Bool

-- What a call finds: whether the class of the matcher exists and what the matcher gives, all sites, the
-- host of the request, the base path of the extension's configuration, the global request.
pub record Environment : Type 0 where
  pub has_site_matcher : Bool
  pub match_request : Result (Option AnySite)
  pub all_sites : List Site
  pub request_host : String
  pub base_path : Value
  pub request : Option ServerRequest

-- The static variables of `getCurrent`, of `getAll` and of `ResourceEnhancer::getBasePath`.
pub record Statics : Type 0 where
  pub current : Option AnySite
  pub all : Option (List Site)
  pub enhancer_base_path : Option String

abbrev pub no_statics : Statics
no_statics = record { current = none; all = none; enhancer_base_path = none }

-- what the static variable of `getAll` holds, or else the sites, which it then holds
abbrev pub all_from : Environment → Option (List Site) → Action Statics (List Site)
all_from env (some sites) s = (ok sites, s)
all_from env none s = (ok env.all_sites, record s { all = some env.all_sites })

-- `getAll`
unfoldable pub get_all : Environment → Action Statics (List Site)
get_all env s = all_from env s.all s

-- `getResolvedByTypo3`
abbrev pub get_resolved_by_typo3 : Environment → Result (Option AnySite)
get_resolved_by_typo3 env = if env.has_site_matcher then env.match_request else ok none

-- the first site of a list that passes a test
unfoldable pub first_site : (Site → Bool) → List Site → Option AnySite
first_site test [] = none
first_site test (x ∷ xs) =
    let rest = first_site test xs in if test x then some (configured x) else rest

abbrev pub matches_current_url : Environment → Site → Bool
matches_current_url env x = rtrim_slashes (trim x.base) == env.request_host

abbrev pub has_wildcard_domain : Site → Bool
has_wildcard_domain x = trim x.base == "/"

-- `getFirstMatchingCurrentUrl`
unfoldable pub get_first_matching_current_url : Environment → Action Statics (Option AnySite)
unfolding first_site get_all
get_first_matching_current_url env = do
  sites ← get_all env
  pure (first_site (matches_current_url env) sites)

-- `getFirstWithWildcardDomain`
unfoldable pub get_first_with_wildcard_domain : Environment → Action Statics (Option AnySite)
unfolding first_site get_all
get_first_with_wildcard_domain env = do
  sites ← get_all env
  pure (first_site has_wildcard_domain sites)

-- `$found ?? $next`
abbrev pub or_else :
    Option AnySite → Action Statics (Option AnySite) → Action Statics (Option AnySite)
or_else (some x) next = pure (some x)
or_else none next = next

abbrev pub determine : Environment → Action Statics (Option AnySite)
determine env = do
  resolved ← lift (get_resolved_by_typo3 env)
  or_else resolved do
    matching ← get_first_matching_current_url env
    or_else matching (get_first_with_wildcard_domain env)

abbrev pub remember : Option AnySite → Action Statics (Option AnySite)
remember x s = (ok x, record s { current = x })

abbrev pub site_or_throw : Option AnySite → Result Site
site_or_throw (some (configured x)) = ok x
site_or_throw (some other_site) = thrown (runtime 1604259480589)
site_or_throw none = thrown (runtime 1604259480589)

-- what the static variable of `getCurrent` holds, or else what is found, which it then holds
abbrev pub current_from : Environment → Option AnySite → Action Statics (Option AnySite)
current_from env (some x) = pure (some x)
current_from env none = do x ← determine env; remember x

-- `getCurrent`
unfoldable pub get_current : Environment → Action Statics Site
unfolding get_first_matching_current_url get_first_with_wildcard_domain
get_current env s = (current_from env s.current >>= λ x. lift (site_or_throw x)) s

abbrev pub enhancer_name : String
enhancer_name = "T3apiResourceEnhancer"

abbrev pub is_t3api : Fields → Bool
is_t3api enhancer = elim (get "type" enhancer) [ some (str t) ↦ t == enhancer_name | _ ↦ false ]

abbrev first_t3api : List Fields → Option Fields
first_t3api [] = none
first_t3api (e ∷ es) = let rest = first_t3api es in if is_t3api e then some e else rest

-- `getT3apiRouteEnhancer`
unfoldable pub get_t3api_route_enhancer : Site → Option Fields
unfolding get
get_t3api_route_enhancer x = elim x.route_enhancers [
  | none ↦ none
  | some enhancers ↦ first_t3api enhancers
]

-- `hasT3apiRouteEnhancer`: an empty array is `empty`, too.
unfoldable pub has_t3api_route_enhancer : Site → Bool
unfolding get_t3api_route_enhancer
has_t3api_route_enhancer x = elim (get_t3api_route_enhancer x) [
  | none ↦ false
  | some [] ↦ false
  | some (_ ∷ _) ↦ true
]
