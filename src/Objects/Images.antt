-- ===== src/Objects/Images.antt =====
-- Classes/Serializer/Handler/ImageHandler.php: the URLs of processed images. Warnings are left out.
use t3api.Base.{String, Bool, Option, none, some, List, [], ◌∷◌, ◌⊎◌, inl, inr, map, if◌then◌else◌}
use t3api.Exception.{Throwable}
use t3api.Result.{Result, ok, thrown, ◌>>=◌}
use t3api.Php.{Value, to_bool}
use t3api.Sites.Routes.{get_url_from_resource}

-- The parameters of an image type: the sizes, and the variant of the crop.
pub record ImageParams : Type 0 where
  pub width : Option String
  pub height : Option String
  pub max_width : Option String
  pub max_height : Option String
  pub crop_variant : Option String

-- What TYPO3 answers about an image: its property `crop`, if it has that, the area of a variant in it, and the
-- public URL of the image that is made with the sizes and an area.
pub record Image (Area : Type 0) : Type 0 where
  pub file : Result (Unit {0})
  pub crop : Option Value
  pub area : Value → String → Result (Option Area)
  pub processed : (sizes : List String) → Option Area → Result (Option String)

-- `$type['params'][$i] ?? $default`
abbrev pub given_or : String → Option String → String
given_or default none = default
given_or default (some s) = s

abbrev pub sizes_of : ImageParams → List String
sizes_of p = map (given_or "") (p.width ∷ p.height ∷ p.max_width ∷ p.max_height ∷ [])

module _ {Area : Type 0} where
  -- `getCropArea`
  unfoldable pub get_crop_area : Image Area → String → Result (Option Area)
  get_crop_area image variant = elim image.crop [
    | none ↦ ok none
    | some crop ↦ if to_bool crop then image.area crop variant else ok none
  ]

-- the value that `ImageHandler::serialize` gets: one image, or several
pub data Images (Area : Type 0) : Type 0 where
  one_image : Image Area → Images Area
  several_images : List (Image Area) → Images Area

-- Whether a throwable is an `Exception` is known to PHP.
module _ (is_exception : Throwable → Bool) where
  -- `catch (\Exception $e)` around the assignment of the URL
  abbrev pub or_none : Result (Option String) → Result (Option String)
  or_none (ok v) = ok v
  or_none (thrown e) = if is_exception e then ok none else thrown e

  -- `parse_url($url, PHP_URL_SCHEME)` and the attribute `TYPO3_SITE_URL` of the context
  module _ (scheme : String → Option String) (site_url : String) where
    module _ {Area : Type 0} where
      -- the calls of `processSingleImage`
      abbrev pub image_url : Image Area → ImageParams → Result (Option String)
      image_url image p = do
        file ← image.file
        area ← get_crop_area image (given_or "default" p.crop_variant)
        url ← image.processed (sizes_of p) area
        ok (get_url_from_resource scheme url site_url).0

      -- `processSingleImage`
      unfoldable pub process_single_image : Image Area → ImageParams → Result (Option String)
      unfolding get_crop_area get_url_from_resource
      process_single_image image p = or_none (image_url image p)

      abbrev process_images : List (Image Area) → ImageParams → Result (List (Option String))
      process_images [] p = ok []
      process_images (image ∷ images) p = do
        url ← process_single_image image p
        urls ← process_images images p
        ok (url ∷ urls)

      -- `ImageHandler::serialize`: one URL, or one for each image
      unfoldable pub serialize_images :
          Images Area → ImageParams → Result (Option String ⊎ List (Option String))
      unfolding process_single_image
      serialize_images (one_image image) p = do url ← process_single_image image p; ok (inl url)
      serialize_images (several_images images) p = do urls ← process_images images p; ok (inr urls)
