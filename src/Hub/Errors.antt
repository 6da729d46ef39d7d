-- ===== src/Hub/Errors.antt =====
-- What a request to the hub returns, and what it raises.
use aenvironment.Common.{
  ◌≡◌, ◌≢◌, ◌<◌, refl, subst, ℕ, Bool, true, false, not, ◌&&◌, Option, none, some, ◌==◌, leb,
  if◌then◌else◌, arith, ◌↔◌,
}
use aenvironment.Common.Text.{Str, lit, str_eq}
use aenvironment.Common.Dict.{Dict}
use aenvironment.Common.Json.{Json, null, bool, number, text, array, object, Fields, end, field?}
use aenvironment.Effect.{Result, ok, err}
use aenvironment.Effect.Exceptions.{Exn, is_hub_error}
use aenvironment.Hub.{
  Response, Reply, timed_out, connection_error, request_exception, responded, HubRequest, json_data,
  error_of, handle_error_response, is_success, or_empty, payload, read_reply, make_request,
  request_of,
}

-- The bodies of a success, with the data that they bear.
pub data Bears : Option Json → Json → Type 0 where
  bears :
      (fs : Fields)
      → is_success (field? (lit "success") fs) ≡ true
      → Bears (some (object fs)) (or_empty (field? (lit "data") fs))

-- The replies that count as a success, with what a request returns for them.
pub data Grants : Reply → Json → Type 0 where
  no_content : (r : Response) → r.status_code ≡ 204 → Grants (responded r) (object end)
  granted :
      (r : Response) (v : Json)
      → r.status_code ≢ 204
      → r.status_code < 400
      → Bears r.json v
      → Grants (responded r) v

judged-Bears :
    (fs : Fields) (b : Bool) (v : Json)
    → is_success (field? (lit "success") fs) ≡ b
    → (if b then ok (or_empty (field? (lit "data") fs)) else err Exn.hub_error) ≡ ok v
    → Bears (some (object fs)) v
judged-Bears fs true v e h = subst (Bears (some (object fs))) (cc) (bears fs e)
judged-Bears fs false v e h = absurd (cc)

payload-Bears :
    (body : Str) (json : Option Json) (v : Json)
    → payload (json_data body json) ≡ ok v
    → Bears json v
unfolding payload field? str_eq
payload-Bears body none v h = absurd (ground arith)
payload-Bears body (some (object fs)) v h = judged-Bears fs _ v refl h
payload-Bears body (some null) v h = absurd (cc)
payload-Bears body (some (bool b)) v h = absurd (cc)
payload-Bears body (some (number s)) v h = absurd (cc)
payload-Bears body (some (text s)) v h = absurd (cc)
payload-Bears body (some (array s)) v h = absurd (cc)

Bears-payload :
    (body : Str) (json : Option Json) (v : Json)
    → Bears json v
    → payload (json_data body json) ≡ ok v
unfolding payload field? str_eq
Bears-payload body json v (bears fs e) = rw e refl

tested-Grants :
    (r : Response) (b c : Bool) (v : Json)
    → (r.status_code == 204) ≡ b
    → leb 400 r.status_code ≡ c
    → (if b
        then ok (object end)
        else if c
        then err (handle_error_response r.status_code (json_data r.body r.json))
        else payload (json_data r.body r.json))
      ≡ ok v
    → Grants (responded r) v
tested-Grants r true c v e f h = subst (Grants (responded r)) (cc) (no_content r (ground arith))
tested-Grants r false true v e f h = absurd (cc)
tested-Grants r false false v e f h =
    granted r v (ground arith) (ground arith) (payload-Bears r.body r.json v h)

ok-Grants : (reply : Reply) (v : Json) → read_reply reply ≡ ok v → Grants reply v
unfolding read_reply
ok-Grants (responded r) v h = tested-Grants r _ _ v refl refl h
ok-Grants timed_out v h = absurd (cc)
ok-Grants connection_error v h = absurd (cc)
ok-Grants request_exception v h = absurd (cc)

Grants-ok : (reply : Reply) (v : Json) → Grants reply v → read_reply reply ≡ ok v
unfolding read_reply
Grants-ok reply v (no_content r e) = rw e refl
Grants-ok reply v (granted r w n l b) = ground (arith, Bears-payload r.body r.json v b)

-- whether the body is JSON, but no dictionary
abbrev pub is_strange : Option Json → Bool
is_strange none = false
is_strange (some (object fs)) = false
is_strange (some j) = true

abbrev pub strange_reply : Reply → Bool
strange_reply (responded r) = not (r.status_code == 204) && is_strange r.json
strange_reply _ = false

-- whether a call returns or raises an `AEnvHubError`
abbrev pub only_hub_error {ℓ} : {A : Type ℓ} → Result A → Bool
only_hub_error (ok v) = true
only_hub_error (err e) = is_hub_error e

status_hub : (n : ℕ) → is_hub_error (error_of n) ≡ true
status_hub n = ground arith

handled_hub :
    (n : ℕ) (body : Str) (json : Option Json)
    → is_hub_error (handle_error_response n (json_data body json)) ≡ not (is_strange json)
unfolding handle_error_response
handled_hub n body none = status_hub n
handled_hub n body (some (object fs)) = status_hub n
handled_hub n body (some null) = refl
handled_hub n body (some (bool b)) = refl
handled_hub n body (some (number s)) = refl
handled_hub n body (some (text s)) = refl
handled_hub n body (some (array s)) = refl

payload_hub :
    (body : Str) (json : Option Json)
    → only_hub_error (payload (json_data body json)) ≡ not (is_strange json)
unfolding payload
payload_hub body none = ground arith
payload_hub body (some (object fs)) = ground arith
payload_hub body (some null) = refl
payload_hub body (some (bool b)) = refl
payload_hub body (some (number s)) = refl
payload_hub body (some (text s)) = refl
payload_hub body (some (array s)) = refl

reply_hub : (reply : Reply) → only_hub_error (read_reply reply) ≡ not (strange_reply reply)
unfolding read_reply
reply_hub (responded r) =
    ground (arith, handled_hub r.status_code r.body r.json, payload_hub r.body r.json)
reply_hub timed_out = refl
reply_hub connection_error = refl
reply_hub request_exception = refl

module _ {S : Type 0} (send : HubRequest → S → Reply × S) where
  -- A request returns a value exactly if the reply is a 204, for which the value is the empty
  -- dictionary, or another reply below 400 whose body is a dictionary with a true "success", for
  -- which it is what stands under "data", or the empty dictionary where nothing does.
  pub make_request-ok :
      (method endpoint : Str) (body : Option Fields) (params : Dict Str) (s : S) (v : Json)
      → ((make_request send method endpoint body params s).0 ≡ ok v)
        ↔ Grants (send (request_of method endpoint body params) s).0 v
  unfolding make_request
  make_request-ok method endpoint body params s v = (
    ok-Grants (send (request_of method endpoint body params) s).0 v,
    Grants-ok (send (request_of method endpoint body params) s).0 v,
  )

  -- What a request raises is an AEnvHubError, exactly if the reply is not one other than a 204
  -- whose body is JSON but no dictionary.
  make_request-raises :
      (method endpoint : Str) (body : Option Fields) (params : Dict Str) (s : S)
      → only_hub_error (make_request send method endpoint body params s).0
        ≡ not (strange_reply (send (request_of method endpoint body params) s).0)
  unfolding make_request
  make_request-raises method endpoint body params s =
      reply_hub (send (request_of method endpoint body params) s).0
