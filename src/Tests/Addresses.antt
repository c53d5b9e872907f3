-- ===== src/Tests/Addresses.antt =====
-- Tests of the current site, the base paths and the language of a request.
use Prim.Native.String
use t3api.Base.{
  String, Bool, true, false, ◌≡◌, refl, Option, none, some, List, [], ◌∷◌, ◌==◌, if◌then◌else◌,
}
use t3api.Base.Int.{pos, eqb_ℤ}
use t3api.Base.Text.{concat, str_starts_with}
use t3api.Base.Slashes.{trim_slashes, rtrim_slashes, ends_with_slash}
use t3api.Exception.{foreign}
use t3api.Result.{ok, thrown}
use t3api.Php.{str, Fields}
use t3api.Sites.{
  Site, AnySite, SiteLanguage, ServerRequest, Environment, Statics, no_statics, get_current,
}
use t3api.Sites.Routes.{
  get_api_base_path, get_full_api_base_path, get_full_api_base_url, enhance_for_matching,
}
use t3api.Sites.Languages.{resolve_language}
use t3api.Sites.Paths.{IsTrimmed, get_full_api_base_url_parts}
use t3api.Sites.Prefix.{with_request, language_header_drops_prefix}
use t3api.Sites.Sticky.{enhancer_route, all_sites, after_calls, get_current_stays}

abbrev english : SiteLanguage
english = record { language_id = pos 0; base_path = "/en/" }

abbrev german : SiteLanguage
german = record { language_id = pos 1; base_path = "/de/" }

abbrev shop : Site
shop = record {
  identifier = "shop";
  base = "https://shop.example.org/";
  route_enhancers =
      some ((("type", str "PageType") ∷ []) ∷ (("type", str "T3apiResourceEnhancer") ∷ []) ∷ []);
  default_language = english;
}

-- a request to the English URL, whose header asks for German
abbrev english_request : ServerRequest
english_request = record {
  path = "/en/_api/cars";
  query_params = ("t3apiResource", str "cars") ∷ [];
  get_header = λ name. if name == "X-Locale" then "1" ∷ [] else [];
  get_language_by_id = λ uid. if eqb_ℤ uid (pos 1) then ok german else thrown (foreign 1522960188);
  language = some english;
  header_language_request = false;
}

abbrev environment : Environment
environment = record {
  has_site_matcher = true;
  match_request = ok none;
  all_sites = shop ∷ [];
  request_host = "https://shop.example.org";
  base_path = str "_api";
  request = some english_request;
}

-- an environment in which there are no sites any more
abbrev empty : Environment
empty = record environment { all_sites = []; request_host = "https://other.example.org" }

shop-found : (get_current environment no_statics).0 ≡ ok shop
unfolding get_current rtrim_slashes t3api.Php.Number.trim
shop-found = refl

get_current_stays_example :
    (get_current empty (
      after_calls
        ((empty, all_sites) ∷ (empty, enhancer_route) ∷ [])
        (get_current environment no_statics).1)).0
    ≡ ok shop
get_current_stays_example =
    get_current_stays environment empty no_statics shop
      ((empty, all_sites) ∷ (empty, enhancer_route) ∷ []) shop-found

url-found : (get_full_api_base_url environment no_statics).0 ≡ ok "https://shop.example.org/en/_api"
unfolding get_full_api_base_url rtrim_slashes t3api.Php.Number.trim t3api.Base.Slashes.ltrim_slashes
    trim_slashes
url-found = refl

get_full_api_base_url_parts_example :
    (site : Site) × (path : String) × ((get_current environment no_statics).0 ≡ ok site)
    × ((get_full_api_base_path environment (get_current environment no_statics).1).0 ≡ ok path)
    × ("https://shop.example.org/en/_api" ≡ concat (rtrim_slashes site.base ∷ "/" ∷ path ∷ []))
    × (ends_with_slash (rtrim_slashes site.base) ≡ false)
    × IsTrimmed path
get_full_api_base_url_parts_example =
    get_full_api_base_url_parts environment no_statics "https://shop.example.org/en/_api" url-found

base-found : (get_api_base_path (with_request environment english_request) no_statics).0 ≡ ok "_api"
unfolding get_api_base_path rtrim_slashes t3api.Php.Number.trim t3api.Base.Slashes.ltrim_slashes
    trim_slashes
base-found = refl

language_header_drops_prefix_example :
    ((get_full_api_base_path (with_request environment english_request) no_statics).0
      ≡ ok (
          trim_slashes
            (String.◌++◌ (if str_starts_with "/en/_api/cars" "/en/" then "/en/" else "") "_api")))
    × (r' : ServerRequest) × (resolve_language "X-Locale" english_request ≡ ok r')
    × (r'.language ≡ some german)
    × ((get_full_api_base_path (with_request environment r') no_statics).0
        ≡ ok (trim_slashes "_api"))
unfolding t3api.Sites.Languages.get_t3api_language_uid
    t3api.Sites.Routes.route_has_t3api_resource_enhancer_query_param
language_header_drops_prefix_example =
    language_header_drops_prefix "X-Locale" environment no_statics english_request english german
      (pos 1) "_api" refl refl refl refl refl refl refl base-found
