-- ===== src/Registry/Laws.antt =====
-- The laws of `ToolRegistry`.
use aenvironment.Common.{
  ◌≡◌, refl, ap, ◌∙◌, Bool, true, false, not, ◌||◌, Option, some, is_some, arith, if◌then◌else◌,
}
use aenvironment.Common.Text.{Str, str_eq}
use aenvironment.Common.Dict.{lookup, lookup-insert}
use aenvironment.Effect.{Result, ok, err}
use aenvironment.Registry.{
  Function, Tool, ToolRegistry, no_tools, tool_name, tool_of, stored, registered, register,
  get_tool, get_tool_descriptor,
}

abbrev pub is_err : Result Function → Bool
is_err (ok f) = false
is_err (err e) = true

registered_fails :
    (a b : Bool) (f : Function) (r r1 : ToolRegistry)
    → (is_err (registered a b f r r1).0 ≡ (a || not b))
      × (is_err (registered a b f r r1).0 ≡ true → (registered a b f r r1).1 ≡ r)
registered_fails true b f r r1 = (refl, λ _. refl)
registered_fails false false f r r1 = (refl, λ _. refl)
registered_fails false true f r r1 = (refl, λ e. absurd (let k : false ≡ true = e in cc))

registered_stores :
    (a b : Bool) (f : Function) (r r1 : ToolRegistry)
    → is_err (registered a b f r r1).0 ≡ false
    → (registered a b f r r1).1 ≡ r1
registered_stores true b f r r1 h = absurd (let k : true ≡ false = h in cc)
registered_stores false false f r r1 h = absurd (let k : true ≡ false = h in cc)
registered_stores false true f r r1 h = refl

-- `register` raises exactly if the name of the tool is taken or the annotations cannot be
-- resolved, and then the registry is as it was.
pub register_fails :
    (f : Function) (name description : Option Str) (hidden : Bool) (r : ToolRegistry)
    → (is_err (register f name description hidden r).0
        ≡ (is_some (get_tool (tool_name f name) r) || not f.hints_resolve))
      × (is_err (register f name description hidden r).0 ≡ true
          → (register f name description hidden r).1 ≡ r)
unfolding register get_tool
register_fails f name description hidden r =
    registered_fails (is_some (get_tool (tool_name f name) r)) f.hints_resolve f r
      (stored (tool_name f name) f (tool_of f name description hidden) r)

-- Where `register` returns, `get_tool` finds the function under the tool's name, and under any
-- other name what it found before.
pub get_tool-register :
    (f : Function) (name description : Option Str) (hidden : Bool) (r : ToolRegistry) (j : Str)
    → is_err (register f name description hidden r).0 ≡ false
    → get_tool j (register f name description hidden r).1
      ≡ (if str_eq (tool_name f name) j then some f else get_tool j r)
unfolding register get_tool
get_tool-register f name description hidden r j h =
    let r1 = stored (tool_name f name) f (tool_of f name description hidden) r in
    let e = registered_stores (is_some (get_tool (tool_name f name) r)) f.hints_resolve f r r1 h in
    ap (λ (s : ToolRegistry). lookup j s.tools) e ∙ lookup-insert (tool_name f name) j f r.tools

-- Both tables of a registry have the same names.
abbrev pub Paired : ToolRegistry → Type 0
Paired r = (j : Str) → is_some (get_tool j r) ≡ is_some (get_tool_descriptor j r)

stored-Paired :
    (name : Str) (f : Function) (t : Tool) (r : ToolRegistry)
    → Paired r
    → Paired (stored name f t r)
unfolding get_tool get_tool_descriptor
stored-Paired name f t r h j =
    ground (arith, lookup-insert name j f r.tools, lookup-insert name j t r.descriptors, h j)

registered-Paired :
    (a b : Bool) (f : Function) (r r1 : ToolRegistry)
    → Paired r
    → Paired r1
    → Paired (registered a b f r r1).1
registered-Paired true b f r r1 h k = h
registered-Paired false false f r r1 h k = h
registered-Paired false true f r r1 h k = k

-- The registries that registrations lead to.
pub data Reached : ToolRegistry → Type 0 where
  starts : Reached no_tools
  registers :
      (f : Function) (name description : Option Str) (hidden : Bool) (r : ToolRegistry)
      → Reached r
      → Reached (register f name description hidden r).1

-- After any registrations, failed ones included, a name has a function exactly if it has a
-- descriptor.
pub Reached-Paired : (r : ToolRegistry) → Reached r → Paired r
unfolding register get_tool get_tool_descriptor
Reached-Paired _ starts = λ j. refl
Reached-Paired _ (registers f name description hidden r h) =
    registered-Paired (is_some (lookup (tool_name f name) r.tools)) f.hints_resolve f r _
      (Reached-Paired r h)
      (stored-Paired (tool_name f name) f (tool_of f name description hidden) r
        (Reached-Paired r h))
