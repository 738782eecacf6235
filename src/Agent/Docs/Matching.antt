-- ===== src/Agent/Docs/Matching.antt =====
-- When an answer is as the documentation of an operation says.
use ya_lyceum_go_project_fin.Prelude.{
  ℕ, String, Bool, true, false, ◌&&◌, Option, none, some, List, [], ◌∷◌,
}
use ya_lyceum_go_project_fin.Agent.Json.{
  Value, string_value, number_value, Object, Json, object, array,
}
use ya_lyceum_go_project_fin.Agent.Docs.{
  PropertyKind, string_kind, number_kind, Schema, definition, array_of, strings, Operation,
  definitions, find_response, find_named,
}

-- A JSON value against a schema: it has documented properties only, each of its kind.
module _ {F : Type 0} where
  abbrev pub has_kind : Option PropertyKind → Value F → Bool
  has_kind none v = false
  has_kind (some string_kind) (string_value s) = true
  has_kind (some number_kind) (number_value n) = true
  has_kind (some string_kind) (number_value n) = false
  has_kind (some number_kind) (string_value s) = false

  abbrev pub has_properties : List (String × PropertyKind) → Object F → Bool
  has_properties properties [] = true
  has_properties properties ((name, v) ∷ o) =
      has_kind (find_named name properties) v && has_properties properties o

  abbrev pub is_defined : Option (List (String × PropertyKind)) → Object F → Bool
  is_defined none o = false
  is_defined (some properties) o = has_properties properties o

  abbrev pub all_defined : Option (List (String × PropertyKind)) → List (Object F) → Bool
  all_defined d [] = true
  all_defined d (o ∷ os) = is_defined d o && all_defined d os

  abbrev pub has_strings : Object F → Bool
  has_strings [] = true
  has_strings ((name, v) ∷ o) = has_kind (some string_kind) v && has_strings o

  abbrev pub has_schema : Schema → Json F → Bool
  has_schema (definition name) (object o) = is_defined (find_named name definitions) o
  has_schema (definition name) (array os) = false
  has_schema (array_of name) (object o) = false
  has_schema (array_of name) (array os) = all_defined (find_named name definitions) os
  has_schema strings (object o) = has_strings o
  has_schema strings (array os) = false

  abbrev pub has_response_schema : Option Schema → Json F → Bool
  has_response_schema none j = false
  has_response_schema (some schema) j = has_schema schema j

  -- The status is documented, and the body has its schema.
  abbrev pub is_response : Operation → ℕ → Json F → Bool
  is_response o status j = has_response_schema (find_response status o.responses) j
