-- ===== src/Swagger.antt =====
-- Resources/Public/ESM/swagger-init.js: the page of the API documentation waits for the script of
-- Swagger UI, which it asks for every 100 milliseconds, and starts it once.
use t3api.Base.{
  none, some, if◌then◌else◌, ◌∙◌, Bool, true, false, String, Option, List, [], ◌∷◌, ◌≡◌, refl, ap,
  ◌++◌, All, arith,
}

-- the argument of `SwaggerUIBundle`
pub record Options : Type 0 where
  pub url : Option String
  pub dom_id : String
  pub deep_linking : Bool
  pub presets : List String
  pub plugins : List String

-- The page: whether the interval is running, and the calls of `SwaggerUIBundle` so far.
pub record Page : Type 0 where
  pub is_polling : Bool
  pub started : List Options

-- `setInterval`
unfoldable pub load : Page
load = record { is_polling = true; started = [] }

-- What a call of the function finds: whether `window.SwaggerUIBundle` is set, the attribute `data-spec-url` of
-- the element, where that is there, and whether the script of `SwaggerUIStandalonePreset` is loaded.
pub record Window : Type 0 where
  pub bundle : Bool
  pub element : Option (Option String)
  pub preset : Bool

-- the argument of `SwaggerUIBundle`, whose evaluation throws without the element or the preset
abbrev pub options : Option (Option String) → Bool → Option Options
options none preset = none
options (some url) false = none
options (some url) true = some (record {
  url = url;
  dom_id = "#t3api-swagger-ui";
  deep_linking = true;
  presets = "SwaggerUIBundle.presets.apis" ∷ "SwaggerUIStandalonePreset" ∷ [];
  plugins = "SwaggerUIBundle.plugins.DownloadUrl" ∷ [];
})

abbrev pub called_with : Option Options → List Options
called_with none = []
called_with (some o) = o ∷ []

-- The function that the interval calls; what it throws after `clearInterval` is lost.
unfoldable pub check : Window → Page → Page
check w page =
    if w.bundle
    then record {
      is_polling = false;
      started = called_with (options w.element w.preset) ++ page.started;
    }
    else page

-- What happens every 100 milliseconds, as long as the interval has not been cleared.
unfoldable pub tick : Window → Page → Page
unfolding check
tick w page = elim page.is_polling [ false ↦ page | true ↦ check w page ]

-- The page after some ticks.
unfoldable pub run : List Window → Page → Page
unfolding tick
run [] page = page
run (w ∷ rest) page = run rest (tick w page)

tick-idle : (w : Window) (page : Page) → page.is_polling ≡ false → tick w page ≡ page
unfolding tick
tick-idle w page e = ground arith

tick-waits : (w : Window) (page : Page) → w.bundle ≡ false → tick w page ≡ page
unfolding tick
tick-waits w page e = ground arith

run-idle : (ws : List Window) (page : Page) → page.is_polling ≡ false → run ws page ≡ page
unfolding run
run-idle [] page e = refl
run-idle (w ∷ ws) page e = ap (run ws) (tick-idle w page e) ∙ run-idle ws page e

run-waits :
    (ws after : List Window) (page : Page)
    → All (λ w. w.bundle ≡ false) ws
    → run (ws ++ after) page ≡ run after page
unfolding run
run-waits [] after page h = refl
run-waits (w ∷ ws) after page (e, h) =
    ap (run (ws ++ after)) (tick-waits w page e) ∙ run-waits ws after page h

called_with-append : (o : Option Options) → called_with o ++ [] ≡ called_with o
called_with-append none = refl
called_with-append (some o) = refl

tick-starts :
    (w : Window)
    → w.bundle ≡ true
    → tick w load
      ≡ record { is_polling = false; started = called_with (options w.element w.preset) }
unfolding tick load
tick-starts w e = rw (e) (
    ap (λ started. record { is_polling = false; started = started })
      (called_with-append (options w.element w.preset)))

-- However long the script of Swagger UI takes to load, the interval is cleared at the first tick at which it is
-- there. Swagger UI is started once then, if the element and the script of the preset are there too, and
-- otherwise never; ticks after that change nothing.
pub run_starts_once :
    (before after : List Window) (w : Window)
    → All (λ v. v.bundle ≡ false) before
    → w.bundle ≡ true
    → run (before ++ w ∷ after) load
      ≡ record { is_polling = false; started = called_with (options w.element w.preset) }
unfolding run
run_starts_once before after w h e =
    run-waits before (w ∷ after) load h ∙ ap (run after) (tick-starts w e) ∙ run-idle after _ refl
