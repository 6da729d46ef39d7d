-- ===== src/Scheduler/Read.antt =====
-- How the operations of scheduler_client.py read a response: the inner `try` of each.
use aenvironment.Common.{Bool, true, false, Option, none, some, List, [], ◌∷◌, if◌then◌else◌}
use aenvironment.Effect.{Result, ok, err}
use aenvironment.Effect.Exceptions.{Exn, is_value_error}
use aenvironment.Models.{EnvInstance, EnvService, ApiResponse}
use aenvironment.World.{Payload, Response}

-- `except ValueError: raise EnvironmentError(...)`
abbrev invalid_response {ℓ} : {A : Type ℓ} → Result A → Result A
invalid_response (ok a) = ok a
invalid_response (err e) = if is_value_error e then err Exn.environment_error else err e

-- what is done with `APIResponse(**response.json())`
abbrev on_parsed {ℓ} :
    {A : Type ℓ} → Result (ApiResponse Payload) → (ApiResponse Payload → Result A) → Result A
on_parsed (ok api) f = f api
on_parsed (err e) f = err e

-- `api_response.success and api_response.data`, and the data if so
abbrev accepted : Bool → Option Payload → Option Payload
accepted false d = none
accepted true none = none
accepted true (some p) = if p.truthy then some p else none

abbrev on_data {ℓ} : {A : Type ℓ} → ApiResponse Payload → (Payload → Result A) → Result A → Result A
on_data api f otherwise = elim (accepted api.success api.payload) [
  | none ↦ otherwise
  | some p ↦ f p
]

unfoldable pub read_instance : Response → Result EnvInstance
read_instance r =
    invalid_response
      (on_parsed r.parsed λ api. on_data api (λ p. p.as_instance) (err Exn.environment_error))

unfoldable pub read_service : Response → Result EnvService
read_service r =
    invalid_response
      (on_parsed r.parsed λ api. on_data api (λ p. p.as_service) (err Exn.environment_error))

unfoldable pub read_instances : Response → Result (List EnvInstance)
read_instances r =
    invalid_response (on_parsed r.parsed λ api. on_data api (λ p. p.as_instances) (ok []))

unfoldable pub read_success : Response → Result Bool
read_success r = invalid_response (on_parsed r.parsed λ api. ok api.success)

abbrev cons_ok {ℓ} : {A : Type ℓ} → A → Result (List A) → Result (List A)
cons_ok a (ok xs) = ok (a ∷ xs)
cons_ok a (err e) = err e

-- `[EnvService(**item) for item in data]`: the first item that does not validate raises
abbrev collect {ℓ} : {A : Type ℓ} → List (Result A) → Result (List A)
collect [] = ok []
collect (ok a ∷ rs) = cons_ok a (collect rs)
collect (err e ∷ rs) = err e

-- `isinstance(api_response.data, list)`
abbrev services_of : Option Payload → Result (List EnvService)
services_of none = ok []
services_of (some p) = elim p.as_services [ none ↦ ok [] | some items ↦ collect items ]

unfoldable pub read_services : Response → Result (List EnvService)
read_services r = invalid_response (
    on_parsed r.parsed
      λ api. if api.success then services_of api.payload else err Exn.environment_error)
