-- ===== src/Registry/Tests.antt =====
-- Tests of the registries of tools and of functions.
use aenvironment.Common.{◌≡◌, refl, true, false, none, some, [], ◌∷◌, any, if◌then◌else◌}
use aenvironment.Common.Text.{Str, lit, str_eq}
use aenvironment.Common.Json.{Json, number, text, array, object, end, field, nil, cons}
use aenvironment.Effect.{Result, ok, err}
use aenvironment.Effect.Exceptions.{Exn}
use aenvironment.Registry.{Function, Hint, ToolRegistry, no_tools, register, generate_input_schema}
use aenvironment.Registry.Laws.{starts, registers, Paired, Reached-Paired}
use aenvironment.Registry.Functions.{Request, handler, with_body, writes}
use aenvironment.Registry.Handler.{code_of, sent_code, handler_code}

abbrev add : Function
add = record {
  name = lit "add";
  doc = none;
  parameters =
      record { name = lit "self"; hint = none; default = none }
      ∷ record { name = lit "a"; hint = some Hint.int; default = none }
      ∷ record { name = lit "b"; hint = none; default = some (text (lit "x")) }
      ∷ [];
  result_hint = some Hint.int;
  hints_resolve = true;
  is_async = false;
  call = λ fs. ok record { dumped = ok (object fs); shown = ok [] };
}

schema :
    generate_input_schema add
    ≡ object (
        field (lit "type") (text (lit "object")) (
          field
            (lit "properties")
            (object (
              field
                (lit "a")
                (object (
                  field
                    (lit "type")
                    (text (lit "integer"))
                    (field (lit "description") (text (lit "Parameter a")) end)))
                (field
                  (lit "b")
                  (object (
                    field (lit "type") (text (lit "string")) (
                      field
                        (lit "description")
                        (text (lit "Parameter b"))
                        (field (lit "default") (text (lit "x")) end))))
                  end)))
            (field (lit "required") (array (cons (text (lit "a")) nil)) end)))
unfolding generate_input_schema
schema = refl

abbrev one_tool : ToolRegistry
one_tool = (register add none none false no_tools).1

Reached-Paired_example : Paired one_tool
Reached-Paired_example = Reached-Paired one_tool (registers add none none false no_tools starts)

abbrev request : Request
request = record { method = lit "PUT"; json_body = ok (text []); query_params = end }

-- NaN, which `json.dumps` writes and the response does not
abbrev ratio : Function
ratio = record add {
  name = lit "ratio";
  call = λ fs. ok record { dumped = ok (number (lit "NaN")); shown = ok (lit "nan") };
}

abbrev query : Request
query = record { method = lit "GET"; json_body = ok (object end); query_params = end }

abbrev render : Json → Result Str
render (object (field s b (field d (number v) fs))) = err Exn.value_error
render j = ok (lit "{}")

abbrev text_of : Exn → Result Str
text_of e = ok (lit "Out of range float values are not JSON compliant")

handler_code_example : sent_code (handler render text_of ratio 5 query 0).0 ≡ (
    if any (str_eq query.method) writes
    then code_of render text_of (with_body ratio query.json_body)
    else if str_eq query.method (lit "GET")
    then code_of render text_of (ratio.call query.query_params)
    else 405)
handler_code_example = handler_code render text_of ratio 5 0 query (λ e. refl) refl refl refl

test_nan : sent_code (handler render text_of ratio 5 query 0).0 ≡ 500
unfolding handler str_eq
test_nan = refl

-- A body that is no dictionary is a TypeError.
test_body : sent_code (handler render text_of add 5 request 0).0 ≡ 500
unfolding handler str_eq
test_body = refl
