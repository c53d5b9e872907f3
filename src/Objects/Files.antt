-- ===== src/Objects/Files.antt =====
-- Classes/Serializer/Handler/FileReferenceHandler.php, the reading of file references.
use t3api.Base.{
  arith, refl, Bool-cases, inl, inr, ◌⊎◌, ap, String, Bool, true, false, not, ◌||◌, ◌≡◌, Option,
  none, some, List, ◌∷◌, ◌==◌, if◌then◌else◌,
}
use t3api.Base.Int.{eqb_ℤ_iff, ℤ, pos, ltb_ℤ, eqb_ℤ}
use t3api.Exception.{api, runtime, type_error, validation_failed}
use t3api.Result.{Result, ok, thrown, Result-cases}
use t3api.Action.{continue, Action, pure, throw, lift, ◌>>=◌, ◌>>◌}
use t3api.Php.{bool, Value, null, int, str, arr, Entries, fields, get, to_int, to_bool}
use t3api.Php.Numeric.{is_numeric}
use t3api.Runtime.{Ref}
use t3api.Objects.{TypeName}

-- What the handler asks of TYPO3 and the serializer. `single_reference` is the property at the path that is
-- read, where it holds one file reference; `current_pid` is the page of the current object, where that is a
-- domain object, and the page is none where it is on no page.
pub record Files : Type 0 where
  pub is_file_class : String → Bool
  pub single_reference : Result (Option Ref)
  pub get_file_reference : ℤ → Option Ref
  pub current_pid : Option (Option ℤ)
  -- The serializer reads the new reference from the data, and `createFileReferenceObject` makes the object of
  -- the file; both may throw. What the first does for properties inside the reference is not followed here.
  pub read_reference : Entries → String → Result (Unit {0})
  pub create_file_reference : Value → Result (Unit {0})

-- What becomes of the data: nothing, a reference that exists, or a new one, which the serializer reads from
-- data into an object of a class, with the file and the page that it gets.
pub data FileResult : Type 0 where
  no_file : FileResult
  existing_file : Option Ref → FileResult
  new_file : Entries → String → (uid_local : Value) → (pid : Option ℤ) → FileResult

-- the references that were removed, the last one first
abbrev pub Removed : Type 0
Removed = List Ref

-- `FileReferenceHandler::TYPE`
abbrev pub file_transport : String
file_transport = "FileReferenceTransport"

-- `empty($data[$key])`
abbrev pub filled_entry : String → Entries → Option Value
filled_entry key es = elim (get key (fields es)) [
  | none ↦ none
  | some v ↦ if to_bool v then some v else none
]

abbrev pub remove_reference : Option Ref → Action Removed (Unit {0})
remove_reference none s = (ok tt, s)
remove_reference (some x) s = (ok tt, x ∷ s)

-- `$data['uid']`: of a value that is neither an array nor a text it is null
abbrev uid_entry : Value → Result Value
uid_entry (arr es) = elim (get "uid" (fields es)) [ none ↦ ok null | some v ↦ ok v ]
uid_entry (str s) = thrown type_error
uid_entry _ = ok null

abbrev pub uid_of : Bool → Value → Result ℤ
uid_of true v = ok (to_int v)
uid_of false v = elim (uid_entry v) [ ok u ↦ ok (to_int u) | thrown e ↦ thrown e ]

abbrev pub has_class : Option String → Bool
has_class none = false
has_class (some s) = not (s == "" || s == "0")

module _ (files : Files) where
  open files use {
    is_file_class, single_reference, get_file_reference, current_pid, read_reference,
    create_file_reference,
  }

  -- `removeExistingFileReference`
  unfoldable pub remove_existing_file_reference : Action Removed (Unit {0})
  remove_existing_file_reference = do x ← lift single_reference; remove_reference x

  abbrev pub page : Option (Option ℤ) → Option ℤ
  page none = none
  page (some none) = some (pos 0)
  page (some (some p)) = some p

  abbrev pub create_from : Option Value → Entries → String → Action Removed FileResult
  create_from none es type = throw (api (validation_failed 1581461062805))
  create_from (some uid_local) es type = do
    remove_existing_file_reference
    lift (read_reference es type)
    lift (create_file_reference uid_local)
    pure (new_file es type uid_local (page current_pid))

  -- `createSysFileReference`
  unfoldable pub create_sys_file_reference : Entries → String → Action Removed FileResult
  unfolding remove_existing_file_reference get to_bool
  create_sys_file_reference es type = create_from (filled_entry "uidLocal" es) es type

  abbrev pub existing_or_none : Result ℤ → Result FileResult
  existing_or_none (thrown e) = thrown e
  existing_or_none (ok uid) =
      if ltb_ℤ (pos 0) uid then ok (existing_file (get_file_reference uid)) else ok no_file

  abbrev pub clear : Action Removed FileResult
  clear = do remove_existing_file_reference; pure no_file

  abbrev pub from_entries : Option Value → Entries → String → Action Removed FileResult
  from_entries none es type = create_sys_file_reference es type
  from_entries (some uid) es type = lift (existing_or_none (uid_of false (arr es)))

  abbrev pub read_file : Value → String → Action Removed FileResult
  read_file (int z) type = if eqb_ℤ z (pos 0) then clear else lift (existing_or_none (ok z))
  read_file (arr es) type = from_entries (filled_entry "uid" es) es type
  read_file v type = lift (existing_or_none (uid_of (is_numeric v) v))

  abbrev pub read_as : Option String → Value → Action Removed FileResult
  read_as none v = throw (runtime 1577534803669)
  read_as (some type) v =
      if is_file_class type then read_file v type else throw (runtime 1577534838461)

  -- `deserialize`
  unfoldable pub deserialize_file : TypeName → Value → Action Removed FileResult
  unfolding create_sys_file_reference to_int is_numeric
  deserialize_file t v =
      if not (t.name == file_transport)
      then throw (runtime 1577534783745)
      else if not (has_class t.target_type)
      then throw (runtime 1577534803669)
      else read_as t.target_type v

  -- the data names a file and no uid
  abbrev pub NamesFile : Value → Value → Type 0
  NamesFile v uid_local =
      (es : Entries) × (v ≡ arr es)
      × (filled_entry "uid" es ≡ none)
      × (filled_entry "uidLocal" es ≡ some uid_local)

  -- What comes of data for which the reference of the property is removed: nothing of the number 0, and of an
  -- array without a uid that names a file a new reference to it, or an exception in making that.
  abbrev pub Replaces : Value → Result FileResult → Type 0
  Replaces v (ok no_file) = v ≡ int (pos 0)
  Replaces v (ok (new_file es type uid_local pid)) = (v ≡ arr es) × NamesFile v uid_local
  Replaces v (ok (existing_file x)) = ⊥
  Replaces v (thrown e) = (uid_local : Value) × NamesFile v uid_local

  -- nothing was removed, or the reference of the property was, with what came of the data
  abbrev pub Replaced : Value → Result FileResult × Removed → Removed → Type 0
  Replaced v out s =
      (out.1 ≡ s)
      ⊎ ((x : Ref) × (single_reference ≡ ok (some x)) × (out.1 ≡ x ∷ s) × Replaces v out.0)

  -- what is done once the property was read, where what follows removes nothing
  module _ (v : Value) (next : Action Removed FileResult) (s : Removed)
      (still : (t : Removed) → (next t).1 ≡ t) (why : (t : Removed) → Replaces v (next t).0) where
    Replaced-removed :
        (r : Result (Option Ref))
        → single_reference ≡ r
        → Replaced v
            (continue
              (continue r remove_reference s).0
              (λ u. next)
              (continue r remove_reference s).1)
            s
    Replaced-removed (thrown e) k = inl refl
    Replaced-removed (ok none) k = inl (still s)
    Replaced-removed (ok (some x)) k = inr (x, k, still (x ∷ s), why (x ∷ s))

  -- what follows the removal for a new reference
  module _ (es : Entries) (type : String) (u : Value) where
    abbrev make : Action Removed FileResult
    make = do
      lift (read_reference es type)
      lift (create_file_reference u)
      pure (new_file es type u (page current_pid))

    make-still : (t : Removed) → (make t).1 ≡ t
    make-still t = ground arith

    make-Replaces : NamesFile (arr es) u → (t : Removed) → Replaces (arr es) (make t).0
    make-Replaces named t = elim (Result-cases (read_reference es type)) [
      | inr (e, h) ↦ rw h (u, named)
      | inl (a, h) ↦ elim (Result-cases (create_file_reference u)) [
        | inr (e, k) ↦ rw (h, k) (u, named)
        | inl (b, k) ↦ rw (h, k) (refl, named)
      ]
    ]

  Replaced-entries :
      (es : Entries) (type : String) (s : Removed) (uid file : Option Value)
      → filled_entry "uid" es ≡ uid
      → filled_entry "uidLocal" es ≡ file
      → Replaced (arr es) (from_entries uid es type s) s
  unfolding create_sys_file_reference remove_existing_file_reference
  Replaced-entries es type s (some uid) file k h = inl refl
  Replaced-entries es type s none none k h = rw (h, create_sys_file_reference) (inl refl)
  Replaced-entries es type s none (some u) k h =
      rw (h, create_sys_file_reference)
        (Replaced-removed (arr es) (make es type u) s (make-still es type u)
          (make-Replaces es type u (es, refl, k, h)) single_reference refl)

  Replaced-read : (v : Value) (type : String) (s : Removed) → Replaced v (read_file v type s) s
  unfolding remove_existing_file_reference
  Replaced-read (int z) type s = elim (Bool-cases (eqb_ℤ z (pos 0))) [
    | inl e ↦ rw e (
        Replaced-removed (int z) (pure no_file) s (λ t. refl)
          (λ t. ap int ((eqb_ℤ_iff z (pos 0)).0 e)) single_reference refl)
    | inr e ↦ rw e (inl refl)
  ]
  Replaced-read (arr es) type s = Replaced-entries es type s _ _ refl refl
  Replaced-read null type s = inl refl
  Replaced-read (bool b) type s = inl refl
  Replaced-read (str t) type s = inl refl

  Replaced-as : (type : Option String) (v : Value) (s : Removed) → Replaced v (read_as type v s) s
  Replaced-as none v s = inl refl
  Replaced-as (some type) v s = elim (Bool-cases (is_file_class type)) [
    | inl e ↦ rw e (Replaced-read v type s)
    | inr e ↦ rw e (inl refl)
  ]

  -- Reading a file reference itself, without what the serializer reads inside the data of a new one,
  -- removes at most one reference, and then the one that the property holds: where
  -- the data is the number 0, which gives nothing, or an array without a uid that names a file, which gives a
  -- new reference to that file or an exception in making it. What refers to a reference that exists, and all
  -- other data, removes nothing.
  pub deserialize_file-Replaced :
      (t : TypeName) (v : Value) (s : Removed) → Replaced v (deserialize_file t v s) s
  unfolding deserialize_file
  deserialize_file-Replaced t v s = elim (Bool-cases (t.name == file_transport)) [
    | inr e ↦ rw e (inl refl)
    | inl e ↦ elim (Bool-cases (has_class t.target_type)) [
      | inr k ↦ rw (e, k) (inl refl)
      | inl k ↦ rw (e, k) (Replaced-as t.target_type v s)
    ]
  ]
