-- ===== src/Agent/Docs.antt =====
-- docs/agent_api/docs.go: the paths, security, responses and schemas that the documentation of the
-- Agent gives, less the descriptions, examples and tags.
pub mod Matching
pub mod Responses
use ya_lyceum_go_project_fin.Prelude.{
  ℕ, String, Bool, true, false, ◌&&◌, Option, none, some, List, [], ◌∷◌, ◌==◌, str_eq,
  if◌then◌else◌,
}
use ya_lyceum_go_project_fin.Agent.Json.{
  Value, string_value, number_value, Object, Json, object, array,
}

pub data Method : Type 0 where
  get post : Method

pub data Segment : Type 0 where
  literal parameter : String → Segment

abbrev pub PathTemplate : Type 0
PathTemplate = List Segment

abbrev pub same_segment : Segment → Segment → Bool
same_segment (literal a) (literal b) = str_eq a b
same_segment (parameter a) (parameter b) = str_eq a b
same_segment (literal a) (parameter b) = false
same_segment (parameter a) (literal b) = false

abbrev pub same_path : PathTemplate → PathTemplate → Bool
same_path [] [] = true
same_path (a ∷ p) (b ∷ q) = same_segment a b && same_path p q
same_path [] (b ∷ q) = false
same_path (a ∷ p) [] = false

abbrev pub same_method : Method → Method → Bool
same_method get get = true
same_method post post = true
same_method get post = false
same_method post get = false

-- A definition by its name, an array of one, and an object whose properties are strings.
pub data Schema : Type 0 where
  definition array_of : String → Schema
  strings : Schema

pub data PropertyKind : Type 0 where
  string_kind number_kind : PropertyKind

-- `secured` is `"security": [{"BearerAuth": []}]`; `body` is the schema of the parameter in the body.
pub record Operation : Type 0 where
  pub method : Method
  pub path : PathTemplate
  pub secured : Bool
  pub body : Option String
  pub responses : List (ℕ × Schema)

abbrev pub documented_calculate : Operation
documented_calculate = record {
  method = post;
  path = literal "calculate" ∷ [];
  secured = true;
  body = some "handler.CalculateRequest";
  responses =
      (202, definition "handler.CalculateResponse")
      ∷ (400, definition "handler.ErrorResponse")
      ∷ (401, definition "handler.ErrorResponse")
      ∷ (500, definition "handler.ErrorResponse")
      ∷ [];
}

abbrev pub documented_login : Operation
documented_login = record {
  method = post;
  path = literal "login" ∷ [];
  secured = false;
  body = some "handler.LoginRequest";
  responses =
      (200, definition "handler.LoginResponse")
      ∷ (400, definition "handler.ErrorResponse")
      ∷ (401, definition "handler.ErrorResponse")
      ∷ (500, definition "handler.ErrorResponse")
      ∷ [];
}

abbrev pub documented_register : Operation
documented_register = record {
  method = post;
  path = literal "register" ∷ [];
  secured = false;
  body = some "handler.RegisterRequest";
  responses =
      (200, strings)
      ∷ (400, definition "handler.ErrorResponse")
      ∷ (409, definition "handler.ErrorResponse")
      ∷ (500, definition "handler.ErrorResponse")
      ∷ [];
}

abbrev pub documented_tasks : Operation
documented_tasks = record {
  method = get;
  path = literal "tasks" ∷ [];
  secured = true;
  body = none;
  responses =
      (200, array_of "service.TaskListItem")
      ∷ (401, definition "handler.ErrorResponse")
      ∷ (500, definition "handler.ErrorResponse")
      ∷ [];
}

abbrev pub documented_task : Operation
documented_task = record {
  method = get;
  path = literal "tasks" ∷ parameter "id" ∷ [];
  secured = true;
  body = none;
  responses =
      (200, definition "service.TaskDetails")
      ∷ (400, definition "handler.ErrorResponse")
      ∷ (401, definition "handler.ErrorResponse")
      ∷ (404, definition "handler.ErrorResponse")
      ∷ (500, definition "handler.ErrorResponse")
      ∷ [];
}

-- The section `paths`.
abbrev pub operations : List Operation
operations =
    documented_calculate ∷ documented_login ∷ documented_register ∷ documented_tasks
    ∷ documented_task ∷ []

-- The section `definitions`: the properties of each.
abbrev pub definitions : List (String × List (String × PropertyKind))
definitions =
    ("handler.CalculateRequest", ("expression", string_kind) ∷ [])
    ∷ ("handler.CalculateResponse", ("task_id", string_kind) ∷ [])
    ∷ ("handler.ErrorResponse", ("error", string_kind) ∷ [])
    ∷ ("handler.LoginRequest", ("login", string_kind) ∷ ("password", string_kind) ∷ [])
    ∷ ("handler.LoginResponse", ("token", string_kind) ∷ [])
    ∷ ("handler.RegisterRequest", ("login", string_kind) ∷ ("password", string_kind) ∷ [])
    ∷ (
      "service.TaskDetails",
      ("created_at", string_kind)
          ∷ ("error_message", string_kind)
          ∷ ("expression", string_kind)
          ∷ ("id", string_kind)
          ∷ ("result", number_kind)
          ∷ ("status", string_kind)
          ∷ ("updated_at", string_kind)
          ∷ [],
    )
    ∷ (
      "service.TaskListItem",
      ("created_at", string_kind)
          ∷ ("expression", string_kind)
          ∷ ("id", string_kind)
          ∷ ("status", string_kind)
          ∷ [],
    )
    ∷ []

abbrev pub find_operation : Method → PathTemplate → List Operation → Option Operation
find_operation m p [] = none
find_operation m p (o ∷ os) =
    if same_method m o.method && same_path p o.path then some o else find_operation m p os

abbrev pub find_response : ℕ → List (ℕ × Schema) → Option Schema
find_response status [] = none
find_response status ((s, schema) ∷ rs) =
    if status == s then some schema else find_response status rs

abbrev pub find_named : {A : Type 0} → String → List (String × A) → Option A
find_named name [] = none
find_named name ((n, a) ∷ ns) = if str_eq name n then some a else find_named name ns
