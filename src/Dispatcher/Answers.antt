-- ===== src/Dispatcher/Answers.antt =====
-- What `Bootstrap::process` answers.
use t3api.Base.{◌∙◌, ap, sym, inr, inl, ℕ, String, ◌≡◌, refl, List, arith}
use t3api.Exception.{Throwable, api, get_status_code}
use t3api.Result.{ok-injective, Result-cases, Result, ok, thrown}
use t3api.Http.{Request, Messages}
use t3api.Domain.Resource.{ApiResource}
use t3api.Runtime.{Platform, State, History}
use t3api.Handler.Support.{Settings}
use t3api.Dispatcher.{
  standard, get_title, translated, Reason, Surroundings, dispatch, initial_state, response_or,
  bootstrap, answer,
}

-- the status for what came of a request, given that of the response
abbrev pub status_for : Result String → ℕ → ℕ
status_for (ok body) n = n
status_for (thrown (api e)) n = get_status_code e
status_for (thrown _) n = 500

-- the throwable that gets out where the serializer fails with `e` on `t`
abbrev pub thrown_out : Throwable → Throwable → Throwable
thrown_out (api _) e = e
thrown_out t e = t

module _ (http : Messages) (platform : Platform) (c : Settings) (w : Surroundings) where
  open http use {
    Response, status, header, with_status, status-with_status, header-with_status, with_header,
    new_response,
  }

  abbrev pub reason_for : Throwable → Reason
  reason_for (api e) = translated (get_title e)
  reason_for _ = standard

  pub answer-serialized :
      (t : Throwable) (h : History) (r : Response) (body : String)
      → w.serialize_throwable h t ≡ ok body
      → answer http platform c w (thrown t) h r
        ≡ ok (with_status (status_for (thrown t) 0) (reason_for t) r, body)
  unfolding answer
  answer-serialized t h r body e = ground arith

  answer-failed :
      (t : Throwable) (h : History) (r : Response) (f : Throwable)
      → w.serialize_throwable h t ≡ thrown f
      → answer http platform c w (thrown t) h r ≡ thrown (thrown_out t f)
  unfolding answer
  answer-failed t h r f e = ground arith

  status_for-thrown : (t : Throwable) (n m : ℕ) → status_for (thrown t) n ≡ status_for (thrown t) m
  status_for-thrown t n m = ground arith

  clash : {a : Response × String} {e : Throwable} → thrown e ≡ ok a → ⊥
  clash p = cc

  response_of :
      {a r : Response} {b c : String}
      → ◌≡◌ {A = Result (Response × String)} (ok (a, b)) (ok (r, c))
      → r ≡ a
  response_of e = sym (ap (λ x. x.0) (ok-injective e))

  answer-ok :
      (t : Result String) (h : History) (r₀ r : Response) (body : String)
      → answer http platform c w t h r₀ ≡ ok (r, body)
      → (status r ≡ status_for t (status r₀)) × ((m : String) → header m r ≡ header m r₀)
  unfolding answer
  answer-ok (ok b) h r₀ r body e =
      let same = response_of e in (ap status same, λ m. ap (header m) same)
  answer-ok (thrown t) h r₀ r body e = elim (Result-cases (w.serialize_throwable h t)) [
    | inl (b, k) ↦
        let same = response_of (sym (answer-serialized t h r₀ b k) ∙ e) in
        (
          ap status same
              ∙ status-with_status (status_for (thrown t) 0) (reason_for t) r₀
              ∙ status_for-thrown t 0 (status r₀),
          λ m.
              ap (header m) same ∙ header-with_status m (status_for (thrown t) 0) (reason_for t) r₀,
        )
    | inr (f, k) ↦ absurd (clash (sym (answer-failed t h r₀ f k) ∙ e))
  ]

  answer-throws :
      (t : Result String) (h : History) (r₀ : Response) (out : Throwable)
      → answer http platform c w t h r₀ ≡ thrown out
      → (e f : Throwable) × (t ≡ thrown e)
        × (w.serialize_throwable h e ≡ thrown f)
        × (out ≡ thrown_out e f)
  unfolding answer
  answer-throws (ok body) h r₀ out e = ground arith
  answer-throws (thrown t) h r₀ out e = elim (Result-cases (w.serialize_throwable h t)) [
    | inl (b, k) ↦ ground (arith, answer-serialized t h r₀ b k)
    | inr (f, k) ↦ (t, f, refl, k, ground (arith, answer-failed t h r₀ f k))
  ]

  module _ (resources : List ApiResource) (request : Request) where
    abbrev pub start : Response
    start = with_header "Content-Type" "application/ld+json" new_response

    abbrev pub run : Result String × State Response
    run = dispatch http platform c w resources request (initial_state http platform c w start)

    abbrev pub responded : Response
    responded = response_or http platform c w start (run.1).response

    -- The answer has the headers of the response at the point where the request was done or had thrown,
    -- and its status is that of the response, that of the exception, or 500.
    pub bootstrap_answer :
        (r : Response) (body : String)
        → bootstrap http platform c w resources request ≡ ok (r, body)
        → (status r ≡ status_for run.0 (status responded))
          × ((m : String) → header m r ≡ header m responded)
    unfolding bootstrap
    bootstrap_answer r body e = answer-ok run.0 (run.1).history responded r body e

    -- Nothing is thrown but where a throwable could not be serialized. One of the extension is then lost,
    -- any other is thrown again.
    pub bootstrap_throws :
        (out : Throwable)
        → bootstrap http platform c w resources request ≡ thrown out
        → (e f : Throwable) × (run.0 ≡ thrown e)
          × (w.serialize_throwable (run.1).history e ≡ thrown f)
          × (out ≡ thrown_out e f)
    unfolding bootstrap
    bootstrap_throws out e = answer-throws run.0 (run.1).history responded out e
