-- ===== src/Tests/Views.antt =====
-- Tests of what is written of files, images and links, and of the view helper.
use t3api.Base.{
  String, true, false, ◌≡◌, ◌≢◌, refl, Option, none, some, [], ◌∷◌, ◌==◌, if◌then◌else◌, inl, inr,
}
use t3api.Base.Int.{pos}
use t3api.Base.Text.{in_array}
use t3api.Exception.{runtime, type_error, invalid_argument}
use t3api.Result.{ok, thrown}
use t3api.Php.{int, str, null, get}
use t3api.Objects.Links.{FileReference, serialize_file_reference, serialize_record_uri}
use t3api.Objects.Links.Partial.{IsPartial, serialize_file_reference-IsPartial}
use t3api.Objects.Images.{Image, several_images, serialize_images}
use t3api.Inline.{InlineArguments, ParameterNames, get_request_uri, get_request_parameters}

abbrev film : FileReference
film = record {
  original = ok tt;
  public_url = ok (some "/fileadmin/a.mp4");
  uid = ok (pos 4);
  original_file = ok tt;
  file_uid = ok (pos 7);
  file_name = ok "a.mp4";
  mime_type = ok "video/mp4";
  file_size = ok (pos 10);
  embedded = ok (some "//films.example.org/a");
}

-- the size is not known, since the file is missing
abbrev missing : FileReference
missing = record film { public_url = ok none; file_size = thrown (runtime 1) }

files_test :
    (serialize_file_reference (λ u. none) "https://cars.example.org/" (λ e. true) film
      ≡ ok (
          some (
            ("url" ∷ [], str "https://cars.example.org/fileadmin/a.mp4")
            ∷ ("uid" ∷ [], int (pos 4))
            ∷ ("file" ∷ "uid" ∷ [], int (pos 7))
            ∷ ("file" ∷ "name" ∷ [], str "a.mp4")
            ∷ ("file" ∷ "mimeType" ∷ [], str "video/mp4")
            ∷ ("file" ∷ "size" ∷ [], int (pos 10))
            ∷ ("urlEmbed" ∷ [], str "//films.example.org/a")
            ∷ [])))
    × (serialize_file_reference (λ u. none) "https://cars.example.org/" (λ e. true) missing
        ≡ ok (
            some (
              ("url" ∷ [], null)
              ∷ ("uid" ∷ [], int (pos 4))
              ∷ ("file" ∷ "uid" ∷ [], int (pos 7))
              ∷ ("file" ∷ "name" ∷ [], str "a.mp4")
              ∷ ("file" ∷ "mimeType" ∷ [], str "video/mp4")
              ∷ [])))
    × (serialize_file_reference
          (λ u. none)
          ""
          (λ e. false)
          (record film { original = thrown type_error })
        ≡ thrown type_error)
    × (serialize_record_uri (λ u. none) "https://cars.example.org" (λ p. "/car?x=1") "car" none
        ≡ thrown (invalid_argument 1562229270419))
unfolding serialize_file_reference serialize_record_uri t3api.Base.Slashes.rtrim_slashes
    t3api.Base.Slashes.ltrim_slashes
files_test = (refl, refl, refl, refl)

serialize_file_reference-IsPartial_example :
    IsPartial
      (λ e. true)
      (serialize_file_reference (λ u. none) "https://cars.example.org/" (λ e. true) missing)
serialize_file_reference-IsPartial_example =
    serialize_file_reference-IsPartial (λ e. true) (λ u. none) "https://cars.example.org/" missing

-- an image without a crop, and one whose crop cannot be read
abbrev plain : Image String
plain = record {
  file = ok tt;
  crop = some (str "");
  area = λ crop variant. thrown (runtime 2);
  processed = λ sizes area. if in_array "200c" sizes then ok (some "a.jpg") else ok none;
}

images_test :
    serialize_images
      (λ e. true)
      (λ u. none)
      "https://cars.example.org"
      (several_images (plain ∷ (record plain { crop = some (str "x") }) ∷ []))
      (record {
        width = some "200c";
        height = none;
        max_width = none;
        max_height = none;
        crop_variant = none;
      })
    ≡ ok (inr (some "https://cars.example.org/a.jpg" ∷ none ∷ []))
unfolding serialize_images t3api.Php.to_bool t3api.Base.Slashes.rtrim_slashes
    t3api.Base.Slashes.ltrim_slashes
images_test = refl

abbrev names : ParameterNames
names = record { items_per_page_parameter_name = "itemsPerPage"; page_parameter_name = "page" }

abbrev inlined : InlineArguments
inlined = record {
  route = "cars";
  params = ("page", str "2") ∷ ("colour", str "red") ∷ [];
  items_per_page = none;
  page = some (pos 5);
}

inline_test :
    (get_request_uri "https://cars.example.org" "api" inlined ≡ "https://cars.example.org/api/cars")
    × (get_request_parameters names inlined ≡ ("page", int (pos 5)) ∷ ("colour", str "red") ∷ [])
unfolding get_request_uri get_request_parameters
inline_test = (refl, refl)
