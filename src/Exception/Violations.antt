-- ===== src/Exception/Violations.antt =====
-- Classes/Exception/ValidationException.php: the violations of a validation result, which is a tree:
-- the errors of a value, and a result for each named part of it.
use t3api.Base.{ℕ, String, ◌≡◌, sym, List, [], ◌∷◌, ◌++◌}
use t3api.Base.Text.{implode}
use mathlib.Core.List.{append_assoc, append-nil}

pub record Violation : Type 0 where
  pub property_path : String
  pub message : String
  pub code : ℕ

-- an error: its message and code
abbrev pub Error : Type 0
Error = String × ℕ

mutual
  pub data ValidationResult : Type 0 where
    result : List Error → SubResults → ValidationResult

  pub data SubResults : Type 0 where
    none_left : SubResults
    sub : String → ValidationResult → SubResults → SubResults

-- the first loop, which appends to `$violations`
add_errors : List Error → List String → List Violation → List Violation
add_errors [] path violations = violations
add_errors ((m, c) ∷ errors) path violations =
    add_errors errors path
      (violations ++ record { property_path = implode "." path; message = m; code = c } ∷ [])

-- `$violations` is passed by reference: it goes in and comes back.
unfoldable mutual
  unfolding add_errors

  pub get_violations_recursive : ValidationResult → List String → List Violation → List Violation
  get_violations_recursive (result errors subs) path violations =
      get_violations_of_parts subs path (add_errors errors path violations)

  pub get_violations_of_parts : SubResults → List String → List Violation → List Violation
  get_violations_of_parts none_left path violations = violations
  get_violations_of_parts (sub name r rest) path violations =
      get_violations_of_parts rest path (get_violations_recursive r (path ++ name ∷ []) violations)

pub get_violations : ValidationResult → List Violation
unfolding get_violations_recursive get_violations_of_parts
get_violations r = get_violations_recursive r [] []

-- The violations by themselves: those of a value at its path, then those of its parts in order.
abbrev at_path : List String → List Error → List Violation
at_path path [] = []
at_path path ((m, c) ∷ errors) =
    record { property_path = implode "." path; message = m; code = c } ∷ at_path path errors

abbrev mutual
  pub violations_at : List String → ValidationResult → List Violation
  violations_at path (result errors subs) = at_path path errors ++ violations_of_parts path subs

  pub violations_of_parts : List String → SubResults → List Violation
  violations_of_parts path none_left = []
  violations_of_parts path (sub name r rest) =
      violations_at (path ++ name ∷ []) r ++ violations_of_parts path rest

add_errors_lem :
    (errors : List Error) (path : List String) (acc : List Violation)
    → add_errors errors path acc ≡ acc ++ at_path path errors
unfolding add_errors
add_errors_lem [] path acc = sym (append-nil acc)
add_errors_lem ((m, c) ∷ errors) path acc = simp (add_errors_lem errors path, append_assoc)

mutual
  unfolding get_violations_recursive get_violations_of_parts

  recursive_lem :
      (r : ValidationResult) (path : List String) (acc : List Violation)
      → get_violations_recursive r path acc ≡ acc ++ violations_at path r
  recursive_lem (result errors subs) path acc =
      simp (parts_lem subs path, add_errors_lem errors path, append_assoc)

  parts_lem :
      (subs : SubResults) (path : List String) (acc : List Violation)
      → get_violations_of_parts subs path acc ≡ acc ++ violations_of_parts path subs
  parts_lem none_left path acc = sym (append-nil acc)
  parts_lem (sub name r rest) path acc =
      simp (parts_lem rest path, recursive_lem r (path ++ name ∷ []), append_assoc)

-- The list that is gathered by reference is the one read off the tree: for every validation result,
-- the errors of each value in order, each under the dotted path of the value, before those of its
-- parts.
pub get_violations-eq : (r : ValidationResult) → get_violations r ≡ violations_at [] r
unfolding get_violations
get_violations-eq r = recursive_lem r [] []
