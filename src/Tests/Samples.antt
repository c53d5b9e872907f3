-- ===== src/Tests/Samples.antt =====
-- The data of the tests: a resource with an item and two collection operations, and surroundings that
-- answer in fixed ways.
use t3api.Base.{
  ◌≡◌, ◌≢◌, arith, eq_iff, String, Bool, true, false, not, none, some, List, [], ◌∷◌, ◌==◌,
  if◌then◌else◌,
}
use t3api.Base.Int.{pos, eqb_ℤ}
use t3api.Result.{ok}
use t3api.Php.{bool, str, end, entry}
use t3api.Http.{Request, plain_messages, PlainResponse}
use t3api.Cors.{CorsOptions}
use t3api.Domain.Settings.{PersistenceSettings, UploadSettings}
use t3api.Domain.Pagination.{Pagination}
use t3api.Domain.Filter.{CustomClasses}
use t3api.Domain.Operation.{Operation, Kind, item, collection}
use t3api.Domain.Resource.{ApiResource}
use t3api.Filter.{Database}
use t3api.Query.{Query}
use t3api.Runtime.{Platform, State}
use t3api.Handler.Support.{Settings}
use t3api.Dispatcher.{Surroundings, registered_handlers, registered_processors}

abbrev pub pagination : Pagination
pagination = record {
  server_enabled = true;
  client_enabled = false;
  items_per_page = some (pos 2);
  maximum_items_per_page = pos 10;
  client_items_per_page = false;
  items_per_page_parameter_name = "itemsPerPage";
  enabled_parameter_name = "pagination";
  page_parameter_name = "page";
  parameters = [];
}

abbrev pub persistence : PersistenceSettings
persistence = record { storage_pids = pos 5 ∷ []; recursion_level = pos 1 }

abbrev upload : UploadSettings
upload = record {
  folder = "1:/uploads";
  allowed_file_extensions = [];
  conflict_mode = "rename";
  filename_hash_algorithm = "md5";
  content_hash_algorithm = "md5";
  filename_mask = "[filename]";
}

-- an operation with its method, access expression and kind
abbrev pub operation : String → String → Kind → Operation
operation method security kind = record {
  key = method;
  entity = "Car";
  method = method;
  path = "/cars";
  route = record { path = "/_api/cars"; defaults = []; requirements = []; methods = method ∷ [] };
  normalization_context = none;
  denormalization_context = none;
  security = security;
  security_post_denormalize = "";
  persistence = persistence;
  upload = upload;
  kind = kind;
}

abbrev pub resource : ApiResource
resource = record {
  entity = "Car";
  item_operations = operation "GET" "" item ∷ [];
  collection_operations = operation "GET" "" (collection pagination []) ∷ [];
  pagination = pagination;
  persistence = persistence;
  upload = upload;
}

abbrev pub request : String → List (String × String) → Request
request method headers = record {
  method = method;
  headers = headers;
  scheme_and_http_host = "https://api.example.org";
  content = "";
  query = [];
}

abbrev pub get_request : Request
get_request = request "GET" []

-- The expression `false` refuses; there is an object with the number 70 for the identifier 7.
abbrev pub platform : Platform
platform = record {
  access_variables = λ h vs. ok vs;
  user_variables = [];
  evaluate = λ h expression vs. ok (bool (not (expression == "false")));
  get_object = λ h uid type. if eqb_ℤ uid (pos 7) then some 70 else none;
  deserialize = λ h o r target. ok 99;
  replaced = λ h o r target. 7 ∷ [];
  deserialized_object = λ h x. ok x;
  has_errors = λ h x. false;
  get_pid = λ h x. some (pos 6);
  descendants = λ p depth. pos 6 ∷ [];
  perform = λ h c. ok tt;
  upload = λ h o r. ok 50;
}

abbrev pub database : Database
database = record {
  match_against = λ q p fs f. ok [];
  containing = λ q p fs f. ok [];
  within_radius = λ q fs f. ok [];
  is_date = λ s. true;
  custom = λ c p v q f. ok (none, q);
}

abbrev pub classes : CustomClasses
classes = record { extends_order = λ s. false; defaults = λ s. none }

abbrev pub cors : CorsOptions
cors = record {
  allow_credentials = true;
  allow_origin = entry "0" (str "https://shop.example.org") end;
  allow_headers = "content-type" ∷ [];
  allow_methods = "GET" ∷ "POST" ∷ [];
  expose_headers = [];
  max_age = some (pos 60);
  origin_regex = false;
}

abbrev pub settings : Settings
settings = record {
  classes = classes;
  database = database;
  cors = cors;
  matches = λ expression text. false;
  is_file = λ entity. false;
  collection_class_fits = true;
}

-- The router matches the first route of a resource, or none.
abbrev pub surroundings : Bool → Surroundings
surroundings matching = record {
  handlers = registered_handlers;
  processors = registered_processors;
  match_request = λ routes r. if matching then some (0, ("id", str "7") ∷ []) else none;
  is_routing = λ e. false;
  has_main_endpoint = false;
  matches_main_endpoint = λ r. false;
  processed = λ h o out. ok out;
  serialize = λ h o r out. ok "{}";
  serialize_throwable = λ h e. ok "error";
  serialize_main_endpoint = λ h. ok "main";
}

abbrev pub fresh : State PlainResponse
fresh = record { history = []; resolver = none; response = some (plain_messages.new_response) }

abbrev pub query : Query
query = record {
  object_type = "Car";
  constraint = none;
  orderings = [];
  limit = none;
  offset = none;
  respect_storage_page = none;
  respect_sys_language = none;
}

-- Texts that are compared and found different are so.
pub differ : (a b : String) → (a == b) ≡ false → a ≢ b
differ a b h e = ground (arith, eq_iff a b)
