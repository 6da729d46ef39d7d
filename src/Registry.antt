-- ===== src/Registry.antt =====
-- The registry of tools of an environment's server, aenv/src/aenv/core/tool.py: the class
-- `ToolRegistry`, the record `Tool` and the schemas that are made from a function's signature. What
-- `inspect` and `typing` say of a function are fields of the record `Function`.
pub mod Laws
pub mod Functions
pub mod Handler
pub mod Tests
use aenvironment.Common.{
  Bool, true, false, not, ◌&&◌, Option, none, some, is_some, List, [], ◌∷◌, ◌++◌, map, select, each,
  if◌then◌else◌,
}
use aenvironment.Common.Text.{Str, lit, str_eq}
use aenvironment.Common.Dict.{Dict, lookup, insert}
use aenvironment.Common.Json.{Json, text, array, object, Items, nil, cons, Fields, end, field, put}
use aenvironment.Effect.{Result, ok, err, Eff}
use aenvironment.Effect.Exceptions.{Exn}

-- What an annotation is resolved to; a subscripted type such as `List[int]` is none of the others.
pub data Hint : Type 0 where
  str : Hint
  int : Hint
  float : Hint
  bool : Hint
  list : Hint
  dict : Hint
  typing_list : Hint
  typing_dict : Hint
  none_type : Hint
  another : Hint

pub record Parameter : Type 0 where
  pub name : Str
  pub hint : Option Hint
  pub default : Option Json

-- What a function returns: the value that `json.dumps` writes of it, which may have numbers such as
-- NaN, and its `str`, or what they raise.
pub record Returned : Type 0 where
  pub dumped : Result Json
  pub shown : Result Str

pub record Function : Type 0 where
  pub name : Str
  pub doc : Option Str
  pub parameters : List Parameter
  pub result_hint : Option Hint
  pub hints_resolve : Bool
  pub is_async : Bool
  pub call : Fields → Result Returned

pub record Tool : Type 0 where
  pub name : Str
  pub description : Option Str
  pub input_schema : Json
  pub output_schema : Option Json
  pub hidden : Bool

pub record ToolRegistry : Type 0 where
  pub tools : Dict Function
  pub descriptors : Dict Tool

abbrev pub no_tools : ToolRegistry
no_tools = record { tools = []; descriptors = [] }

-- `type_mapping`
abbrev json_type : Hint → Option Str
json_type Hint.str = some (lit "string")
json_type Hint.int = some (lit "integer")
json_type Hint.float = some (lit "number")
json_type Hint.bool = some (lit "boolean")
json_type Hint.list = some (lit "array")
json_type Hint.dict = some (lit "object")
json_type Hint.typing_list = some (lit "array")
json_type Hint.typing_dict = some (lit "object")
json_type Hint.none_type = none
json_type Hint.another = none

-- `type_hints.get(param_name, str)` and `type_mapping.get(param_type, "string")`
abbrev parameter_type : Option Hint → Str
parameter_type none = lit "string"
parameter_type (some h) = elim (json_type h) [ none ↦ lit "string" | some t ↦ t ]

abbrev with_default : Option Json → Fields → Fields
with_default none fs = fs
with_default (some d) fs = put (lit "default") d fs

abbrev property_of : Parameter → Json
property_of p = object (
    with_default p.default (
      field (lit "type") (text (parameter_type p.hint))
        (field (lit "description") (text (lit "Parameter " ++ p.name)) end)))

-- The properties, and the required names in order.
abbrev pub Collected : Type 0
Collected = Fields × List Str

abbrev pub add_parameter : Parameter → Collected → Collected
add_parameter p (properties, required) =
    if str_eq p.name (lit "self") then (properties, required) else (
      put p.name (property_of p) properties,
      if is_some p.default then required else required ++ p.name ∷ [],
    )

abbrev texts : List Str → Items
texts [] = nil
texts (s ∷ ss) = cons (text s) (texts ss)

-- `_generate_input_schema`
unfoldable pub generate_input_schema : Function → Json
unfolding put str_eq
generate_input_schema f =
    let (properties, required) = each add_parameter f.parameters (end, []) in
    object (
      field (lit "type") (text (lit "object")) (
        field (lit "properties") (object properties)
          (field (lit "required") (array (texts required)) end)))

abbrev type_object : Option Str → Json
type_object none = object (field (lit "type") (text (lit "object")) end)
type_object (some t) = object (field (lit "type") (text t) end)

-- `_generate_output_schema`
unfoldable pub generate_output_schema : Option Hint → Option Json
generate_output_schema none = none
generate_output_schema (some Hint.none_type) = none
generate_output_schema (some h) = some (type_object (json_type h))

-- `x or y` for texts
abbrev pub or_else : Option Str → Option Str → Option Str
or_else (some (c ∷ s)) t = some (c ∷ s)
or_else _ t = t

-- `name or func.__name__`
abbrev pub tool_name : Function → Option Str → Str
tool_name f name = elim (or_else name (some f.name)) [ none ↦ f.name | some n ↦ n ]

abbrev pub tool_of : Function → Option Str → Option Str → Bool → Tool
tool_of f name description hidden = record {
  name = tool_name f name;
  description = or_else description f.doc;
  input_schema = generate_input_schema f;
  output_schema = generate_output_schema f.result_hint;
  hidden = hidden;
}

abbrev pub stored : Str → Function → Tool → ToolRegistry → ToolRegistry
stored name f t r = record {
  tools = insert name f r.tools;
  descriptors = insert name t r.descriptors;
}

-- The outcome of `register`, by whether the name is taken and whether the annotations can be
-- resolved, which the making of the schema needs.
abbrev pub registered :
    Bool → Bool → Function → ToolRegistry → ToolRegistry → Result Function × ToolRegistry
registered true resolved f r r1 = (err Exn.value_error, r)
registered false false f r r1 = (err Exn.name_error, r)
registered false true f r r1 = (ok f, r1)

unfoldable pub register : Function → Option Str → Option Str → Bool → Eff ToolRegistry Function
unfolding lookup insert generate_input_schema generate_output_schema
register f name description hidden r =
    registered (is_some (lookup (tool_name f name) r.tools)) f.hints_resolve f r
      (stored (tool_name f name) f (tool_of f name description hidden) r)

unfoldable pub get_tool : Str → ToolRegistry → Option Function
unfolding lookup
get_tool name r = lookup name r.tools

unfoldable pub get_tool_descriptor : Str → ToolRegistry → Option Tool
unfolding lookup
get_tool_descriptor name r = lookup name r.descriptors

abbrev values : Dict Tool → List Tool
values [] = []
values ((k, t) ∷ d) = t ∷ values d

unfoldable pub list_tools : ToolRegistry → List Tool
list_tools r = values r.descriptors

-- the tool in the format of MCP
pub record McpTool : Type 0 where
  pub name : Str
  pub description : Str
  pub input_schema : Json

unfoldable pub get_mcp_tool : Tool → McpTool
get_mcp_tool t = record {
  name = t.name;
  description = elim t.description [ none ↦ [] | some d ↦ d ];
  input_schema = t.input_schema;
}

unfoldable pub list_mcp_tools : ToolRegistry → List McpTool
unfolding list_tools get_mcp_tool
list_mcp_tools r = map get_mcp_tool (select (λ t. not t.hidden) (list_tools r))
