-- ===== src/Agent/Json.antt =====
-- The JSON of the answers: what package encoding/json makes of ErrorResponse, CalculateResponse,
-- RegisterRequest's answer and LoginResponse of internal/agent/handler/auth.go and task.go, and of
-- TaskListItem and TaskDetails of internal/agent/service/task.go, by the tags of their fields.
use ya_lyceum_go_project_fin.Prelude.{
  ℕ, String, Option, none, some, List, [], ◌∷◌, ◌++◌, if◌then◌else◌,
}
use ya_lyceum_go_project_fin.Float64.{Arith}
use ya_lyceum_go_project_fin.Orchestrator.Server.{is_not_finite}
use ya_lyceum_go_project_fin.Agent.Auth.Handlers.{Body, error_body, message_body, token_body}
use ya_lyceum_go_project_fin.Agent.Tasks.{TaskListItem, TaskDetails}
use ya_lyceum_go_project_fin.Agent.Tasks.Handlers.{
  TaskBody, failure_body, accepted_body, list_body, details_body,
}

pub data Value (F : Type 0) : Type 0 where
  string_value : String → Value F
  number_value : F → Value F

abbrev pub Object : Type 0 → Type 0
Object F = List (String × Value F)

pub data Json (F : Type 0) : Type 0 where
  object : Object F → Json F
  array : List (Object F) → Json F

abbrev pub text_field : {F : Type 0} → String → String → Object F
text_field name s = (name, string_value s) ∷ []

-- `omitempty` on a pointer to a string.
abbrev pub optional_text : {F : Type 0} → String → Option String → Object F
optional_text name none = []
optional_text name (some s) = text_field name s

abbrev pub join_fields : {F : Type 0} → Option (Object F) → Option (Object F) → Option (Object F)
join_fields none o = none
join_fields (some fields) none = none
join_fields (some fields) (some rest) = some (fields ++ rest)

-- A time is a text, if its year has four digits.
module _ {F : Type 0} (encode_time : ℕ → Option String) where
  abbrev pub time_field : String → ℕ → Option (Object F)
  time_field name t = elim (encode_time t) [ none ↦ none | some s ↦ some (text_field name s) ]

  unfoldable pub encode_item : TaskListItem → Option (Object F)
  encode_item t =
      join_fields
        (some (
          text_field "id" t.id
          ++ text_field "expression" t.expression
          ++ text_field "status" t.status))
        (time_field "created_at" t.created_at)

  abbrev pub with_items : Option (Object F) → Option (List (Object F)) → Option (List (Object F))
  with_items none rest = none
  with_items (some o) none = none
  with_items (some o) (some os) = some (o ∷ os)

  unfoldable pub encode_items : List TaskListItem → Option (List (Object F))
  unfolding encode_item
  encode_items [] = some []
  encode_items (t ∷ ts) = with_items (encode_item t) (encode_items ts)

module _ {F : Type 0} (fl : Arith F) where
  -- `omitempty` on a pointer to a float64. An infinity and NaN are refused.
  abbrev pub number_field : String → Option F → Option (Object F)
  number_field name none = some []
  number_field name (some v) =
      if is_not_finite fl v then none else some ((name, number_value v) ∷ [])

module _ {F : Type 0} (fl : Arith F) (encode_time : ℕ → Option String) where
  unfoldable pub encode_details : TaskDetails F → Option (Object F)
  encode_details d =
      join_fields
        (join_fields
          (some (
            text_field "id" d.id
            ++ text_field "expression" d.expression
            ++ text_field "status" d.status))
          (number_field fl "result" d.result))
        (join_fields (some (optional_text "error_message" d.error_message)) (
          join_fields (time_field encode_time "created_at" d.created_at)
            (time_field encode_time "updated_at" d.updated_at)))

  -- What `c.JSON` is given, if it can be encoded.
  unfoldable pub encode_task_body : TaskBody F → Option (Json F)
  unfolding encode_items encode_details
  encode_task_body (failure_body m) = some (object (text_field "error" m))
  encode_task_body (accepted_body id) = some (object (text_field "task_id" id))
  encode_task_body (list_body tasks) = elim (encode_items encode_time tasks) [
    | none ↦ none
    | some os ↦ some (array os)
  ]
  encode_task_body (details_body d) = elim (encode_details d) [
    | none ↦ none
    | some o ↦ some (object o)
  ]

abbrev pub encode_body : {F : Type 0} → Body → Json F
encode_body (error_body m) = object (text_field "error" m)
encode_body (message_body m) = object (text_field "message" m)
encode_body (token_body t) = object (text_field "token" t)
