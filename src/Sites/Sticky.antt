-- ===== src/Sites/Sticky.antt =====
-- The current site over a run of calls: its static variable, and what the callers get of it.
use t3api.Base.{refl, ap, ◌∙◌, ap, String, ◌∙◌, Option, none, some, some, ◌≡◌, List, [], ◌∷◌}
use t3api.Result.{ok-injective}
use t3api.Sites.{
  determine, remember, site_or_throw, all_from, current_from, configured, SiteLanguage, thrown,
  Site, ok, continue, lift, ◌>>=◌, pure, Result, Action, AnySite, Environment, Statics, get_all,
  get_current,
}
use t3api.Sites.{other_site}
use t3api.Sites.Routes.{
  base_path_from, prefix_for, language_of_url, get_language_base_path, get_base_path,
  get_api_base_path, get_full_api_base_path, get_full_api_base_url, enhance_for_matching,
}

-- The calls of the two services and of the enhancer.
pub data ServiceCall : Type 0 where
  all_sites current_site api_base_path full_api_base_path full_api_base_url enhancer_route :
      ServiceCall

-- the statics after a call, whatever it returned or threw
unfoldable pub after_call : Environment → ServiceCall → Statics → Statics
unfolding get_all get_current get_api_base_path get_full_api_base_path get_full_api_base_url
    enhance_for_matching
after_call env all_sites s = (get_all env s).1
after_call env current_site s = (get_current env s).1
after_call env api_base_path s = (get_api_base_path env s).1
after_call env full_api_base_path s = (get_full_api_base_path env s).1
after_call env full_api_base_url s = (get_full_api_base_url env s).1
after_call env enhancer_route s = (enhance_for_matching env s).1

-- the statics after a run of calls, each in an environment of its own
unfoldable pub after_calls : List (Environment × ServiceCall) → Statics → Statics
unfolding after_call
after_calls [] s = s
after_calls ((env, o) ∷ rest) s = after_calls rest (after_call env o s)

module _ (x : AnySite) where
  -- A call leaves the static variable of `getCurrent` as it is where it holds the site.
  record Fixes {A : Type 0} (m : Action Statics A) : Type 0 where
    at : (s : Statics) → s.current ≡ some x → ((m s).1).current ≡ some x

module _ {x : AnySite} where
  module _ {A : Type 0} where
    Fixes-pure : (a : A) → Fixes x (pure a)
    Fixes-pure a = record { at = λ s h. h }

    Fixes-lift : (r : Result A) → Fixes x (lift r)
    Fixes-lift r = record { at = λ s h. h }

  module _ {A B : Type 0} where
    Fixes-continue :
        (r : Result A) (f : A → Action Statics B) (s : Statics)
        → ((a : A) → Fixes x (f a))
        → s.current ≡ some x
        → ((continue r f s).1).current ≡ some x
    Fixes-continue (ok a) f s k h = (k a).at s h
    Fixes-continue (thrown e) f s k h = h

    Fixes-bind :
        (m : Action Statics A) (f : A → Action Statics B)
        → Fixes x m
        → ((a : A) → Fixes x (f a))
        → Fixes x (m >>= f)
    Fixes-bind m f km kf = record { at = λ s h. Fixes-continue (m s).0 f (m s).1 kf (km.at s h) }

  ruleset fixes_rules = (Fixes-pure, Fixes-lift, Fixes-bind)

  all_from-current :
      (env : Environment) (sites : Option (List Site)) (s : Statics)
      → s.current ≡ some x
      → ((all_from env sites s).1).current ≡ some x
  all_from-current env none s h = h
  all_from-current env (some sites) s h = h

  Fixes-get_all : (env : Environment) → Fixes x (get_all env)
  unfolding get_all
  Fixes-get_all env = record { at = λ s h. all_from-current env s.all s h }

  lookup-current :
      (env : Environment) (s : Statics) (c : Option AnySite)
      → c ≡ some x
      → s.current ≡ some x
      → (((current_from env c >>= λ y. lift (site_or_throw y)) s).1).current ≡ some x
  lookup-current env s none e h = cc
  lookup-current env s (some y) e h = h

  Fixes-get_current : (env : Environment) → Fixes x (get_current env)
  unfolding get_current
  Fixes-get_current env = record { at = λ s h. lookup-current env s s.current h h }

  Fixes-get_api_base_path : (env : Environment) → Fixes x (get_api_base_path env)
  unfolding get_api_base_path
  Fixes-get_api_base_path env = search (fixes_rules, Fixes-get_current)

  Fixes-prefix : (env : Environment) (l : Option SiteLanguage) → Fixes x (prefix_for env l)
  Fixes-prefix env none = search (fixes_rules, Fixes-get_current)
  Fixes-prefix env (some l) = search fixes_rules

  Fixes-get_language_base_path : (env : Environment) → Fixes x (get_language_base_path env)
  unfolding get_language_base_path
  Fixes-get_language_base_path env =
      Fixes-bind _ _ (Fixes-prefix env (language_of_url env.request)) (λ prefix. search fixes_rules)

  Fixes-get_full_api_base_path : (env : Environment) → Fixes x (get_full_api_base_path env)
  unfolding get_full_api_base_path
  Fixes-get_full_api_base_path env =
      search (fixes_rules, Fixes-get_language_base_path, Fixes-get_api_base_path)

  Fixes-get_full_api_base_url : (env : Environment) → Fixes x (get_full_api_base_url env)
  unfolding get_full_api_base_url
  Fixes-get_full_api_base_url env =
      search (fixes_rules, Fixes-get_current, Fixes-get_full_api_base_path)

  Fixes-base_path_from :
      (env : Environment) (path : Option String) → Fixes x (base_path_from env path)
  unfolding base_path_from
  Fixes-base_path_from env (some path) = search fixes_rules
  Fixes-base_path_from env none =
      Fixes-bind _ _ (Fixes-get_api_base_path env) (λ path. record { at = λ s h. h })

  Fixes-get_base_path : (env : Environment) → Fixes x (get_base_path env)
  unfolding get_base_path
  Fixes-get_base_path env = record {
    at = λ s h. (Fixes-base_path_from env s.enhancer_base_path).at s h;
  }

  Fixes-enhance_for_matching : (env : Environment) → Fixes x (enhance_for_matching env)
  unfolding enhance_for_matching
  Fixes-enhance_for_matching env = search (fixes_rules, Fixes-get_base_path)

module _ (x : AnySite) where
  after_call-current :
      (env : Environment) (o : ServiceCall) (s : Statics)
      → s.current ≡ some x
      → (after_call env o s).current ≡ some x
  unfolding after_call
  after_call-current env all_sites s h = (Fixes-get_all env).at s h
  after_call-current env current_site s h = (Fixes-get_current env).at s h
  after_call-current env api_base_path s h = (Fixes-get_api_base_path env).at s h
  after_call-current env full_api_base_path s h = (Fixes-get_full_api_base_path env).at s h
  after_call-current env full_api_base_url s h = (Fixes-get_full_api_base_url env).at s h
  after_call-current env enhancer_route s h = (Fixes-enhance_for_matching env).at s h

  after_calls-current :
      (calls : List (Environment × ServiceCall)) (s : Statics)
      → s.current ≡ some x
      → (after_calls calls s).current ≡ some x
  unfolding after_calls
  after_calls-current [] s h = h
  after_calls-current ((env, o) ∷ rest) s h =
      after_calls-current rest (after_call env o s) (after_call-current env o s h)

-- what a lookup that found a site leaves, from the answer and the state of the search
remembered-found :
    (r : Result (Option AnySite)) (s : Statics) (site : Site)
    → (continue (continue r remember s).0 (λ y. lift (site_or_throw y)) (continue r remember s).1).0
      ≡ ok site
    → ((continue
        (continue r remember s).0
        (λ y. lift (site_or_throw y))
        (continue r remember s).1).1
      ).current
      ≡ some (configured site)
remembered-found (thrown e) s site h = cc
remembered-found (ok none) s site h = cc
remembered-found (ok (some other_site)) s site h = cc
remembered-found (ok (some (configured y))) s site h =
    ap (λ z. some (configured z)) (ok-injective h)

lookup-found :
    (env : Environment) (c : Option AnySite) (s : Statics) (site : Site)
    → s.current ≡ c
    → ((current_from env c >>= λ y. lift (site_or_throw y)) s).0 ≡ ok site
    → (((current_from env c >>= λ y. lift (site_or_throw y)) s).1).current ≡ some (configured site)
lookup-found env (some (configured y)) s site e h =
    e ∙ ap (λ z. some (configured z)) (ok-injective h)
lookup-found env (some other_site) s site e h = cc
lookup-found env none s site e h = remembered-found (determine env s).0 (determine env s).1 site h

get_current-found :
    (env : Environment) (s : Statics) (site : Site)
    → (get_current env s).0 ≡ ok site
    → ((get_current env s).1).current ≡ some (configured site)
unfolding get_current
get_current-found env s site h = lookup-found env s.current s site refl h

lookup-fixed :
    (env : Environment) (c : Option AnySite) (s : Statics) (site : Site)
    → c ≡ some (configured site)
    → ((current_from env c >>= λ y. lift (site_or_throw y)) s).0 ≡ ok site
lookup-fixed env none s site h = cc
lookup-fixed env (some y) s site h = cc

get_current-fixed :
    (env : Environment) (s : Statics) (site : Site)
    → s.current ≡ some (configured site)
    → (get_current env s).0 ≡ ok site
unfolding get_current
get_current-fixed env s site h = lookup-fixed env s.current s site h

-- Once there is a current site, it is that of every later call in the same process, whatever the services and
-- the enhancer were asked in between, and whatever sites, requests and matches the calls find.
pub get_current_stays :
    (env env' : Environment) (s : Statics) (site : Site) (calls : List (Environment × ServiceCall))
    → (get_current env s).0 ≡ ok site
    → (get_current env' (after_calls calls (get_current env s).1)).0 ≡ ok site
get_current_stays env env' s site calls h =
    get_current-fixed env' (after_calls calls (get_current env s).1) site (
      after_calls-current (configured site) calls (get_current env s).1
        (get_current-found env s site h))
