-- ===== src/Handler/Quiet.antt =====
-- What the parts of the handlers leave as it is: the writes that are pending or durable, and how often was
-- stored.
use t3api.Base.{ℕ, ◌≡◌, refl, Bool, true, false, Option, none, some, List, [], ◌∷◌, arith}
use t3api.Base.Int.{ℤ}
use t3api.Php.{Fields}
use t3api.Http.{Request, Messages}
use t3api.Domain.Operation.{Operation}
use t3api.Domain.Filter.{ApiFilter, CustomClasses}
use t3api.Filter.{Database}
use t3api.Runtime.{added, Ref, History, Call, Platform, Exec}
use t3api.Runtime.Durable.{trace}
use t3api.Runtime.Laws.{is_change, Keeps, Keeps-bind, Keeps-pure, keeps_rules}
use t3api.Access.Keeps.{
  is_granted-Keeps, is_granted_post_denormalize-Keeps, is_filter_granted-Keeps,
}
use t3api.Repository.{
  Repository, filter_granted_filters, find_filtered, find_by_uid, add, remove, update, call, place,
}
use t3api.Handler.{
  handle_item_get, handle_file_upload, handle_collection_get, found_or_throw, handle, handle_item,
  handle_collection, deserialize_operation, read_object, validate_object, require, created,
  require_class,
}
use t3api.Handler.Support.{
  Handler, options, file_upload, collection_get, collection_post, collection_method_not_allowed,
  item_get, item_put, item_patch, item_delete, item_method_not_allowed, Settings,
}

-- handlers that store nothing
abbrev pub only_reads : Handler → Bool
only_reads collection_post = false
only_reads item_put = false
only_reads item_patch = false
only_reads item_delete = false
only_reads _ = true

module _ (http : Messages) (platform : Platform) (c : Settings) where
  open http use {Response}

  abbrev pub Quiet : {A : Type 0} → Exec Response A → Type 0
  Quiet m = Keeps trace m

  trace-reads : (k : Call) (h : History) → is_change k ≡ false → trace (k ∷ h) ≡ trace h
  trace-reads k h e = ground arith

  pub require-Quiet : (b : Bool) (n : ℕ) → Quiet (require http platform b n)
  require-Quiet true n = search keeps_rules
  require-Quiet false n = search keeps_rules

  read_object-Quiet :
      (o : Operation) (request : Request) (x : Option Ref)
      → Quiet (read_object http platform o request x)
  read_object-Quiet o request x = record { at = λ s. refl }

  pub deserialize_operation-Quiet :
      (o : Operation) (request : Request) (x : Option Ref)
      → Quiet (deserialize_operation http platform o request x)
  unfolding deserialize_operation
  deserialize_operation-Quiet o request x =
      search
        (
          keeps_rules,
          require-Quiet,
          read_object-Quiet,
          is_granted_post_denormalize-Keeps {R = Response} platform trace-reads,
        )
        depth 9

  pub validate_object-Quiet : (x : Ref) → Quiet (validate_object http platform x)
  unfolding validate_object
  validate_object-Quiet x = search keeps_rules

  pub handle_collection-Quiet : (o : Operation) → Quiet (handle_collection http platform o)
  unfolding handle_collection
  handle_collection-Quiet o =
      search (keeps_rules, require-Quiet, is_granted-Keeps {R = Response} platform trace-reads)

  pub found_or_throw-Quiet :
      (o : Operation) (uid : ℤ) (x : Option Ref) → Quiet (found_or_throw http platform o uid x)
  found_or_throw-Quiet o uid none = search keeps_rules
  found_or_throw-Quiet o uid (some x) = search keeps_rules

  pub handle_item-Quiet :
      (o : Operation) (route : Fields) → Quiet (handle_item http platform o route)
  unfolding handle_item find_by_uid
  handle_item-Quiet o route =
      search
        (
          keeps_rules,
          require-Quiet,
          found_or_throw-Quiet,
          is_granted-Keeps {R = Response} platform trace-reads,
        )
        depth 9

  pub place-Quiet : (r : Repository) (x : Ref) (p : Option ℤ) → Quiet (place platform r x p)
  place-Quiet r x none = search keeps_rules
  place-Quiet r x (some p) = search keeps_rules

  pub add-Quiet : (r : Repository) (x : Ref) → Quiet (add platform r x)
  unfolding add
  add-Quiet r x = record {
    at = λ s.
        (Keeps-bind (place platform r x (platform.get_pid s.history x))
            (λ u. call platform (added x)) (place-Quiet r x (platform.get_pid s.history x))
            (λ u. search keeps_rules)).at
          s;
  }

  pub update-Quiet : (x : Ref) → Quiet (update platform x)
  unfolding update
  update-Quiet x = search keeps_rules

  pub remove-Quiet : (x : Ref) → Quiet (remove platform x)
  unfolding remove
  remove-Quiet x = search keeps_rules

  pub created-Quiet : Quiet (created http platform)
  created-Quiet = record { at = λ s. refl }

  pub filter_granted_filters-Quiet :
      (fs : List ApiFilter) → Quiet (filter_granted_filters {R = Response} platform fs)
  unfolding filter_granted_filters
  filter_granted_filters-Quiet [] = search keeps_rules
  filter_granted_filters-Quiet (f ∷ fs) =
      Keeps-bind _ _ (is_filter_granted-Keeps platform trace-reads f [])
        (λ granted. Keeps-bind _ _ (filter_granted_filters-Quiet fs) (λ rest. Keeps-pure _))

  pub find_filtered-Quiet :
      (classes : CustomClasses) (db : Database) (r : Repository) (fs : List ApiFilter)
      (request : Request)
      → Quiet (find_filtered {R = Response} platform classes db r fs request)
  unfolding find_filtered
  find_filtered-Quiet classes db r fs request =
      search (keeps_rules, filter_granted_filters-Quiet) depth 9

  pub require_class-Quiet : (b : Bool) → Quiet (require_class http platform b)
  require_class-Quiet true = search keeps_rules
  require_class-Quiet false = search keeps_rules

  pub handle-Quiet :
      (h : Handler) (o : Operation) (request : Request) (route : Fields)
      → only_reads h ≡ true
      → Quiet (handle http platform c h o request route)
  unfolding handle handle_collection_get handle_file_upload handle_item_get
  handle-Quiet options o request route e = record { at = λ s. refl }
  handle-Quiet file_upload o request route e =
      search (keeps_rules, handle_collection-Quiet, created-Quiet) depth 9
  handle-Quiet collection_get o request route e =
      search (keeps_rules, handle_collection-Quiet, require_class-Quiet, find_filtered-Quiet) depth
        9
  handle-Quiet collection_method_not_allowed o request route e = search keeps_rules
  handle-Quiet item_get o request route e = search (keeps_rules, handle_item-Quiet)
  handle-Quiet item_method_not_allowed o request route e = search keeps_rules
  handle-Quiet collection_post o request route e = cc
  handle-Quiet item_put o request route e = cc
  handle-Quiet item_patch o request route e = cc
  handle-Quiet item_delete o request route e = cc
