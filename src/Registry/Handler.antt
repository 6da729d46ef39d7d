-- ===== src/Registry/Handler.antt =====
-- What the handler of a registered function answers, and what the lists of functions say.
use aenvironment.Common.{
  ◌&&◌, false, ℕ, ◌≡◌, refl, ap, ◌∙◌, Bool, true, Option, none, some, is_some, [], ◌∷◌, any, arith,
  if◌then◌else◌, Bool-cases, inl, inr,
}
use aenvironment.Common.Text.{Str, lit, str_eq, str_eq_iff}
use aenvironment.Common.Dict.{Dict, lookup, lookup-insert}
use aenvironment.Common.Json.{Json, text}
use aenvironment.Effect.{Result, ok, err}
use aenvironment.Effect.Exceptions.{Exn, is_exception, is_type_or_value_error}
use aenvironment.Registry.{Function, Returned}
use aenvironment.Registry.Functions.{
  FunctionRegistry, Metadata, Request, Response, respond, answer, rendered, error_response,
  success_response, success_body, error_body, as_text, dumped_or, with_body, writes, handler,
  register_function, endpoint_of, endpoint_or, metadata_of, list_functions_simple, endpoints, added,
}

-- whether an outcome is none that `except Exception` lets through
abbrev pub is_settled {ℓ} : {A : Type ℓ} → Result A → Bool
is_settled (ok a) = true
is_settled (err e) = is_exception e

abbrev pub succeeds {ℓ} : {A : Type ℓ} → Result A → Bool
succeeds (ok a) = true
succeeds (err e) = false

-- the status that is sent, 0 for an exception that leaves the handler
abbrev pub sent_code : Result Response → ℕ
sent_code (ok a) = a.status_code
sent_code (err e) = 0

module _ (render : Json → Result Str) (text_of : Exn → Result Str) where
  -- whether a response can be made of a value, or of its `str` where `json.dumps` does not take it
  abbrev pub is_sendable : Returned → Bool
  is_sendable v = elim v.dumped [
    | ok j ↦ succeeds (render (success_body j))
    | err e ↦
        is_type_or_value_error e
        && (elim v.shown [ ok s ↦ succeeds (render (success_body (text s))) | err x ↦ false ])
  ]

  -- the status of an answer, 200 or 500
  abbrev pub code_of : Result Returned → ℕ
  code_of (ok v) = if is_sendable v then 200 else 500
  code_of (err e) = 500

  -- Every exception's text can be sent with the status 500.
  abbrev pub Explains : Type 0
  Explains = (e : Exn) → sent_code (error_response render text_of (text_of e)) ≡ 500

  caught_code :
      (e : Exn)
      → Explains
      → is_exception e ≡ true
      → sent_code (respond render text_of (err e)) ≡ 500
  caught_code e h k = rw k (h e)

  rendered_code :
      (r : Result Str)
      → Explains
      → is_settled (rendered render text_of 200 r) ≡ true
      → sent_code (respond render text_of (rendered render text_of 200 r))
        ≡ (if succeeds r then 200 else 500)
  rendered_code (ok s) h k = refl
  rendered_code (err e) h k = caught_code e h k

  shown_code :
      (v : Result Str)
      → Explains
      → is_settled (success_response render text_of (as_text v)) ≡ true
      → sent_code (respond render text_of (success_response render text_of (as_text v))) ≡ (
          if elim v [ ok s ↦ succeeds (render (success_body (text s))) | err x ↦ false ]
          then 200
          else 500)
  shown_code (ok s) h k = rendered_code (render (success_body (text s))) h k
  shown_code (err e) h k = caught_code e h k

  chosen_code :
      (b : Bool) (e : Exn) (v : Result Str)
      → Explains
      → is_settled (success_response render text_of (if b then as_text v else err e)) ≡ true
      → sent_code (
          respond render text_of (success_response render text_of (if b then as_text v else err e)))
        ≡ (if b && (elim v [ ok s ↦ succeeds (render (success_body (text s))) | err x ↦ false ])
            then 200
            else 500)
  chosen_code true e v h k = shown_code v h k
  chosen_code false e v h k = caught_code e h k

  dumped_code :
      (v : Result Str) (d : Result Json)
      → Explains
      → is_settled (success_response render text_of (dumped_or v d)) ≡ true
      → sent_code (respond render text_of (success_response render text_of (dumped_or v d)))
        ≡ code_of (ok record { dumped = d; shown = v })
  dumped_code v (ok j) h k = rendered_code (render (success_body j)) h k
  dumped_code v (err e) h k = chosen_code (is_type_or_value_error e) e v h k

  answer_code :
      (v : Result Returned)
      → Explains
      → is_settled (answer render text_of v) ≡ true
      → sent_code (respond render text_of (answer render text_of v)) ≡ code_of v
  answer_code (ok v) h k = dumped_code v.shown v.dumped h k
  answer_code (err e) h k = caught_code e h k

  refused_code :
      (r : Result Str)
      → succeeds r ≡ true
      → sent_code (respond render text_of (rendered render text_of 405 r)) ≡ 405
  refused_code (ok s) h = refl
  refused_code (err e) h = absurd (cc)

  -- Where every exception's text can be sent, the text for a method that is not allowed too, and
  -- nothing but an `Exception` is raised on the way to the response, the handler sends a response to
  -- every request. For POST, PUT and PATCH its status is 200 if the body could be read, the call on it
  -- returned, and a response can be made of the result, or of its `str` where `json.dumps` raises a
  -- TypeError or a ValueError on the result; it is 500 if not. For GET it is the same with the query,
  -- and for any other method it is 405.
  pub handler_code :
      (f : Function) (now last : ℕ) (request : Request)
      → ((e : Exn) → sent_code (error_response render text_of (text_of e)) ≡ 500)
      → succeeds (render (error_body (lit "Method not allowed"))) ≡ true
      → is_settled (answer render text_of (with_body f request.json_body)) ≡ true
      → is_settled (answer render text_of (f.call request.query_params)) ≡ true
      → sent_code (handler render text_of f now request last).0 ≡ (
          if any (str_eq request.method) writes
          then code_of (with_body f request.json_body)
          else if str_eq request.method (lit "GET")
          then code_of (f.call request.query_params)
          else 405)
  unfolding handler
  handler_code f now last request h m k g = ground (
    arith,
    refused_code (render (error_body (lit "Method not allowed"))) m,
    answer_code (with_body f request.json_body) h k,
    answer_code (f.call request.query_params) h g,
  )

lookup-endpoints :
    (j : Str) (fs : Dict Function) (d : Dict Metadata)
    → lookup j (endpoints fs d)
      ≡ (if is_some (lookup j fs) then some (endpoint_or j (lookup j d)) else none)
unfolding lookup
lookup-endpoints j [] d = refl
lookup-endpoints j ((name, f) ∷ fs) d = elim (Bool-cases (str_eq name j)) [
  | inl e ↦
      let same : name ≡ j = (str_eq_iff name j).0 e in
      rw e (ap (λ n. some (endpoint_or n (lookup n d))) same)
  | inr e ↦ rw e (lookup-endpoints j fs d)
]

-- After the registration of a function, the simple list of functions gives its name the endpoint
-- that it was registered with, or the default one, and every other name what it gave before.
pub listed_endpoint :
    (f : Function) (endpoint : Option Str) (method : Str) (r : FunctionRegistry) (j : Str)
    → r.has_server ≡ true
    → lookup j (list_functions_simple (register_function f endpoint method r).1) ≡ (
        if str_eq f.name j
        then some (endpoint_of f endpoint)
        else lookup j (list_functions_simple r))
unfolding register_function list_functions_simple
listed_endpoint f endpoint method r j h =
    let r1 = added f endpoint method r in
    rw h (
      lookup-endpoints j r1.functions r1.metadata
      ∙ ground (
        arith,
        lookup-insert f.name j f r.functions,
        lookup-endpoints j r.functions r.metadata,
        lookup-insert f.name j (metadata_of f (endpoint_of f endpoint) method) r.metadata,
      ))
