-- ===== src/Inline.antt =====
-- Classes/ViewHelpers/InlineViewHelper.php, which answers an operation inside a page that is rendered.
use t3api.Base.{String, Option, none, some, [], ◌∷◌}
use t3api.Base.Int.{ℤ}
use t3api.Base.Text.{concat}
use t3api.Php.{int, Fields}
use t3api.Objects.Subscribers.{put}

-- The arguments of the view helper. `hasArgument` is false of one that is null.
pub record InlineArguments : Type 0 where
  pub route : String
  pub params : Fields
  pub items_per_page : Option ℤ
  pub page : Option ℤ

-- `$GLOBALS['TYPO3_CONF_VARS']['EXTCONF']['t3api']['pagination']`
pub record ParameterNames : Type 0 where
  pub items_per_page_parameter_name : String
  pub page_parameter_name : String

-- `getRequestUri`, given the host of the request and the base path of the API
unfoldable pub get_request_uri : String → String → InlineArguments → String
get_request_uri host base_path a = concat (host ∷ "/" ∷ base_path ∷ "/" ∷ a.route ∷ [])

-- `if ($this->hasArgument(...)) { $params[$name] = ... }`
abbrev pub put_argument : String → Option ℤ → Fields → Fields
put_argument name none params = params
put_argument name (some n) params = put name (int n) params

-- `getRequestParameters`
unfoldable pub get_request_parameters : ParameterNames → InlineArguments → Fields
unfolding put
get_request_parameters names a =
    put_argument names.page_parameter_name a.page
      (put_argument names.items_per_page_parameter_name a.items_per_page a.params)
