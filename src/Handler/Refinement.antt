-- ===== src/Handler/Refinement.antt =====
-- The handlers against an abstract specification: what a request to a resource makes durable.
use t3api.Base.{
  true, ◌≡◌, refl, sym, ap, ◌∙◌, Option, none, some, List, [], ◌∷◌, ◌++◌, inl, inr, arith,
}
use mathlib.Core.Path.{subst}
use t3api.Result.{Result, ok, thrown, Result-cases}
use t3api.Base.Int.{ℤ}
use t3api.Php.{Fields}
use t3api.Http.{Request, Messages}
use t3api.Domain.Operation.{Operation}
use t3api.Runtime.{Ref, History, Platform, State, persisted, deserialized, reset_properties}
use t3api.Runtime.Laws.{changes}
use t3api.Runtime.Durable.{
  Write, inserted, modified, deleted, deletions, pending, durable, trace, pending-changes,
  durable-changes,
}
use t3api.Repository.{Repository}
use t3api.Handler.{handle, validate_object}
use t3api.Handler.Support.{
  Handler, options, file_upload, collection_get, collection_post, collection_method_not_allowed,
  item_get, item_put, item_patch, item_delete, item_method_not_allowed, Outcome, nothing, entity,
  Settings,
}
use t3api.Handler.Steps.{placed, repository}
use t3api.Handler.Effects.{
  admitted, checked, handle_collection_post_returns, handle_item_delete_returns,
}
use t3api.Handler.Updates.{
  read_into, opened, reset, handle_item_put_returns, handle_item_patch_returns,
}
use t3api.Handler.Quiet.{only_reads, handle-Quiet}
use t3api.Handler.Persistence.{handle-Clean}

module _ (http : Messages) (platform : Platform) where
  open http use {Response}

  module _ (o : Operation) (request : Request) (route : Fields) (s : State Response) where
    -- the deletions of file references in the reading of a request
    abbrev pub read_deletions : State Response → Option Ref → List Write
    read_deletions t target = deletions (platform.replaced t.history o request target)

    -- What the handlers promise: the writes that become durable, the last one first, given what comes of a
    -- request in a state. A failure writes nothing; POST and PUT insert the object that they answer with, PATCH
    -- modifies it, and before that the file references are deleted that new ones replace in the request; DELETE
    -- deletes one object and answers with nothing, and no other handler writes.
    abbrev pub Promised : Handler → Result Outcome → List Write → Type 0
    Promised h (thrown e) ws = ws ≡ []
    Promised collection_post (ok out) ws =
        (x : Ref) × (out ≡ entity x)
        × (ws ≡ inserted x ∷ read_deletions (admitted http platform o request s) none)
    Promised item_put (ok out) ws =
        (x : Ref) × (out ≡ entity x)
        × (ws ≡ inserted x ∷ read_deletions (reset http platform o request route s x) (some x))
    Promised item_patch (ok out) ws =
        (x : Ref) × (out ≡ entity x)
        × (ws ≡ modified x ∷ read_deletions (opened http platform o request route s) (some x))
    Promised item_delete (ok out) ws = (x : Ref) × (out ≡ nothing) × (ws ≡ deleted x ∷ [])
    Promised _ (ok out) ws = ws ≡ []

    Promised-read : (h : Handler) (out : Outcome) → only_reads h ≡ true → Promised h (ok out) []
    Promised-read options out e = refl
    Promised-read file_upload out e = refl
    Promised-read collection_get out e = refl
    Promised-read collection_method_not_allowed out e = refl
    Promised-read item_get out e = refl
    Promised-read item_method_not_allowed out e = refl
    Promised-read collection_post out e = cc
    Promised-read item_put out e = cc
    Promised-read item_patch out e = cc
    Promised-read item_delete out e = cc

append-empty : (ws : List Write) → ws ++ [] ≡ ws
append-empty [] = refl
append-empty (w ∷ ws) = ap (λ z. w ∷ z) (append-empty ws)

-- what a history has made durable, where its last change was to persist
flushed :
    (h k : History) (ws ds : List Write)
    → changes h ≡ persisted ∷ k
    → pending k ≡ ws
    → durable k ≡ ds
    → durable h ≡ ws ++ ds
flushed h k ws ds e p d = sym (durable-changes h) ∙ ap durable e ∙ rw (p, d) refl

module _ (http : Messages) (platform : Platform) where
  open http use {Response}

  placed-silent :
      (r : Repository) (x : Ref) (p : Option ℤ) (k : History)
      → (pending (placed http platform r x p ++ k) ≡ pending k)
        × (durable (placed http platform r x p ++ k) ≡ durable k)
  placed-silent r x none k = ground arith
  placed-silent r x (some p) k = (refl, refl)

  module _ (c : Settings) (o : Operation) (request : Request) (route : Fields) (s : State Response)
      (fresh : pending s.history ≡ []) where
    abbrev after : Handler → History
    after h = ((handle http platform c h o request route s).1).history

    abbrev result : Handler → Result Outcome
    result h = (handle http platform c h o request route s).0

    -- the statement for one handler
    abbrev Refines : Handler → Type 0
    Refines h =
        (ws : List Write) × (durable (after h) ≡ ws ++ durable s.history)
        × Promised http platform o request route s h (result h) ws

    nothing_pending : pending (changes s.history) ≡ []
    nothing_pending = pending-changes s.history ∙ fresh

    -- what is pending after a request was read, where nothing was before
    read_pending :
        (xs : List Ref) (k : History) → pending k ≡ [] → deletions xs ++ pending k ≡ deletions xs
    read_pending xs k e = rw (e) (append-empty (deletions xs))

    returned :
        (h : Handler) (out : Outcome) (ws : List Write)
        → result h ≡ ok out
        → durable (after h) ≡ ws ++ durable s.history
        → Promised http platform o request route s h (ok out) ws
        → Refines h
    returned h out ws e d p =
        (ws, d, subst (λ r. Promised http platform o request route s h r ws) (sym e) p)

    still :
        (h : Handler) → trace (after h) ≡ trace s.history → durable (after h) ≡ durable s.history
    still h e = ap (λ t. t.1) e

    reads : (h : Handler) (out : Outcome) → result h ≡ ok out → only_reads h ≡ true → Refines h
    reads h out e r =
        returned h out [] e (still h ((handle-Quiet http platform c h o request route r).at s))
          (Promised-read http platform o request route s h out r)

    Refines-post : (out : Outcome) → result collection_post ≡ ok out → Refines collection_post
    unfolding handle
    Refines-post out e =
        let (x, granted, found, same, fine, all) =
          handle_collection_post_returns http platform o request s out e in
        let refs = platform.replaced (admitted http platform o request s).history o request none in
        let silent =
          placed-silent (repository http platform o) x
            (platform.get_pid (checked http platform o request s x).history x)
            (deserialized none refs ∷ changes s.history) in
        returned collection_post out (inserted x ∷ deletions refs) e
          (flushed (after collection_post) _ (inserted x ∷ deletions refs) (durable s.history) all
            (ap (λ z. inserted x ∷ z)
              (silent.0 ∙ read_pending refs (changes s.history) nothing_pending))
            (silent.1 ∙ durable-changes s.history))
          (x, same, refl)

    Refines-put : (out : Outcome) → result item_put ≡ ok out → Refines item_put
    unfolding handle
    Refines-put out e =
        let (x, found, granted, same, fine, all) =
          handle_item_put_returns http platform o request route s out e in
        let refs =
          platform.replaced (reset http platform o request route s x).history o request (some x) in
        let silent =
          placed-silent (repository http platform o) x
            (platform.get_pid
              (validate_object http platform x (
                read_into http platform o request route s x
                  (reset http platform o request route s x))).1.history
              x)
            (deserialized (some x) refs ∷ reset_properties x ∷ changes s.history) in
        returned item_put out (inserted x ∷ deletions refs) e
          (flushed (after item_put) _ (inserted x ∷ deletions refs) (durable s.history) all
            (ap (λ z. inserted x ∷ z)
              (silent.0
                ∙ read_pending refs (reset_properties x ∷ changes s.history) nothing_pending))
            (silent.1 ∙ durable-changes s.history))
          (x, same, refl)

    Refines-patch : (out : Outcome) → result item_patch ≡ ok out → Refines item_patch
    unfolding handle
    Refines-patch out e =
        let (x, found, granted, same, fine, all) =
          handle_item_patch_returns http platform o request route s out e in
        let refs =
          platform.replaced (opened http platform o request route s).history o request (some x) in
        returned item_patch out (modified x ∷ deletions refs) e
          (flushed (after item_patch) _ (modified x ∷ deletions refs) (durable s.history) all
            (ap (λ z. modified x ∷ z) (read_pending refs (changes s.history) nothing_pending))
            (durable-changes s.history))
          (x, same, refl)

    Refines-delete : (out : Outcome) → result item_delete ≡ ok out → Refines item_delete
    unfolding handle
    Refines-delete out e =
        let (x, found, granted, same, all) =
          handle_item_delete_returns http platform o route s out e in
        returned item_delete out (deleted x ∷ []) e
          (flushed (after item_delete) _ (deleted x ∷ []) (durable s.history) all
            (ap (λ z. deleted x ∷ z) nothing_pending) (durable-changes s.history))
          (x, same, refl)

    Refines-returned : (h : Handler) (out : Outcome) → result h ≡ ok out → Refines h
    Refines-returned collection_post out e = Refines-post out e
    Refines-returned item_put out e = Refines-put out e
    Refines-returned item_patch out e = Refines-patch out e
    Refines-returned item_delete out e = Refines-delete out e
    Refines-returned options out e = reads options out e refl
    Refines-returned file_upload out e = reads file_upload out e refl
    Refines-returned collection_get out e = reads collection_get out e refl
    Refines-returned collection_method_not_allowed out e =
        reads collection_method_not_allowed out e refl
    Refines-returned item_get out e = reads item_get out e refl
    Refines-returned item_method_not_allowed out e = reads item_method_not_allowed out e refl

    pub handle_refines :
        (h : Handler)
        → ((k : History) → platform.perform k persisted ≡ ok tt)
        → (ws : List Write) × (durable ((handle http platform c h o request route s).1).history
            ≡ ws ++ durable s.history)
          × Promised http platform o request route s h
              (handle http platform c h o request route s).0
              ws
    handle_refines h stores = elim (Result-cases (result h)) [
      | inl (out, e) ↦ Refines-returned h out e
      | inr (t, e) ↦ (
        [],
        still h ((handle-Clean http platform c stores h o request route).at_throw s t e),
        subst (λ r. Promised http platform o request route s h r []) (sym e) refl,
      )
    ]
