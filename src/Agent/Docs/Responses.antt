-- ===== src/Agent/Docs/Responses.antt =====
-- That the Agent answers as its documentation says.
use ya_lyceum_go_project_fin.Prelude.{
  ℕ, String, ◌≡◌, inl, inr, refl, subst, Bool, true, Option, none, some, List, [], ◌∷◌, ◌++◌, arith,
  Bool-cases, Option-cases,
}
use ya_lyceum_go_project_fin.Float64.{Arith}
use ya_lyceum_go_project_fin.Orchestrator.Server.{is_not_finite}
use ya_lyceum_go_project_fin.Agent.Tasks.{TaskListItem, TaskDetails}
use ya_lyceum_go_project_fin.Agent.Json.{
  Object, Json, object, array, join_fields, text_field, optional_text, time_field, number_field,
  encode_item, encode_items, encode_details, encode_task_body,
}
use ya_lyceum_go_project_fin.Agent.Tasks.Handlers.{list_body, details_body}
use ya_lyceum_go_project_fin.Agent.Docs.{
  Method, PathTemplate, Operation, operations, find_operation, documented_tasks, documented_task,
  PropertyKind, string_kind, number_kind, find_named,
}
use ya_lyceum_go_project_fin.Agent.Docs.Matching.{is_response, has_properties, all_defined}

module _ {F : Type 0} where
  -- A response of the documented operation with the method and the path.
  pub record IsDocumented (method : Method) (path : PathTemplate) (status : ℕ) (j : Json F)
      : Type 0 where
    pub operation : Operation
    pub found : find_operation method path operations ≡ some operation
    pub response : is_response operation status j ≡ true

module _ (F : Type 0) (ps : List (String × PropertyKind)) where
  -- Fields that can be encoded are among the properties.
  abbrev are_fields : Option (Object F) → Bool
  are_fields none = true
  are_fields (some o) = has_properties ps o

  has_properties-append :
      (o o' : Object F)
      → has_properties ps o ≡ true
      → has_properties ps o' ≡ true
      → has_properties ps (o ++ o') ≡ true
  has_properties-append [] o' h h' = h'
  has_properties-append ((name, v) ∷ o) o' h h' = ground (arith, has_properties-append o o')

  are_fields-join_fields :
      (a b : Option (Object F))
      → are_fields a ≡ true
      → are_fields b ≡ true
      → are_fields (join_fields a b) ≡ true
  are_fields-join_fields none b h h' = refl
  are_fields-join_fields (some o) none h h' = refl
  are_fields-join_fields (some o) (some o') h h' = has_properties-append o o' h h'

  are_fields-time_field :
      (encode_time : ℕ → Option String) (name : String) (t : ℕ)
      → find_named name ps ≡ some string_kind
      → are_fields (time_field encode_time name t) ≡ true
  are_fields-time_field encode_time name t h = go (encode_time t)
    where
      go :
          (o : Option String)
          → are_fields (elim o [ none ↦ none | some s ↦ some (text_field name s) ]) ≡ true
      go none = refl
      go (some s) = rw h

  are_fields-optional_text :
      (name : String) (o : Option String)
      → find_named name ps ≡ some string_kind
      → has_properties ps (optional_text {F = F} name o) ≡ true
  are_fields-optional_text name none h = refl
  are_fields-optional_text name (some s) h = rw h

  are_fields-number_field :
      (fl : Arith F) (name : String) (o : Option F)
      → find_named name ps ≡ some number_kind
      → are_fields (number_field fl name o) ≡ true
  are_fields-number_field fl name none h = refl
  are_fields-number_field fl name (some v) h = elim (Bool-cases (is_not_finite fl v)) [
    | inl refused ↦ rw refused
    | inr finite ↦ rw (finite, h)
  ]

abbrev item_properties : List (String × PropertyKind)
item_properties =
    ("created_at", string_kind)
    ∷ ("expression", string_kind)
    ∷ ("id", string_kind)
    ∷ ("status", string_kind)
    ∷ []

abbrev details_properties : List (String × PropertyKind)
details_properties =
    ("created_at", string_kind)
    ∷ ("error_message", string_kind)
    ∷ ("expression", string_kind)
    ∷ ("id", string_kind)
    ∷ ("result", number_kind)
    ∷ ("status", string_kind)
    ∷ ("updated_at", string_kind)
    ∷ []

module _ (F : Type 0) (encode_time : ℕ → Option String) where
  encode_item-are_fields :
      (t : TaskListItem) → are_fields F item_properties (encode_item encode_time t) ≡ true
  unfolding encode_item
  encode_item-are_fields t =
      are_fields-join_fields F item_properties
        (some (
          text_field "id" t.id
          ++ text_field "expression" t.expression
          ++ text_field "status" t.status))
        (time_field encode_time "created_at" t.created_at) refl
        (are_fields-time_field F item_properties encode_time "created_at" t.created_at refl)

  encode_items-all_defined :
      (ts : List TaskListItem) (os : List (Object F))
      → encode_items encode_time ts ≡ some os
      → all_defined (some item_properties) os ≡ true
  unfolding encode_items
  encode_items-all_defined [] os h = ground arith
  encode_items-all_defined (t ∷ ts) os h = elim (Option-cases (encode_item {F = F} encode_time t)) [
    | inl failed ↦ cc (rw (failed, encode_items) at h)
    | inr (o, given) ↦ elim (Option-cases (encode_items {F = F} encode_time ts)) [
      | inl failed ↦ cc (rw (given, failed, encode_items) at h)
      | inr (rest, all) ↦
          let fields : has_properties item_properties o ≡ true =
            subst (λ x. are_fields F item_properties x ≡ true) given (encode_item-are_fields t) in
          ground (arith, fields, encode_items-all_defined ts rest all)
    ]
  ]

module _ {F : Type 0} (fl : Arith F) (encode_time : ℕ → Option String) where
  encode_details-are_fields :
      (d : TaskDetails F) → are_fields F details_properties (encode_details fl encode_time d) ≡ true
  unfolding encode_details
  encode_details-are_fields d =
      let P = details_properties in
      let texts : Object F =
        text_field "id" d.id
        ++ text_field "expression" d.expression
        ++ text_field "status" d.status in
      let result = number_field fl "result" d.result in
      let failure : Object F = optional_text "error_message" d.error_message in
      let created : Option (Object F) = time_field encode_time "created_at" d.created_at in
      let updated : Option (Object F) = time_field encode_time "updated_at" d.updated_at in
      are_fields-join_fields F P (join_fields (some texts) result)
        (join_fields (some failure) (join_fields created updated))
        (are_fields-join_fields F P (some texts) result refl
          (are_fields-number_field F P fl "result" d.result refl))
        (are_fields-join_fields F P (some failure) (join_fields created updated)
          (are_fields-optional_text F P "error_message" d.error_message refl)
          (are_fields-join_fields F P created updated
            (are_fields-time_field F P encode_time "created_at" d.created_at refl)
            (are_fields-time_field F P encode_time "updated_at" d.updated_at refl)))

  pub list-is_response :
      (ts : List TaskListItem) (j : Json F)
      → encode_task_body fl encode_time (list_body ts) ≡ some j
      → is_response documented_tasks 200 j ≡ true
  unfolding encode_task_body
  list-is_response ts j h = elim (Option-cases (encode_items {F = F} encode_time ts)) [
    | inl failed ↦ cc (rw (failed, encode_task_body) at h)
    | inr (os, given) ↦
        let same : array os ≡ j = ground (arith, given) in
        subst (λ x. is_response documented_tasks 200 x ≡ true) same
          (encode_items-all_defined F encode_time ts os given)
  ]

  pub details-is_response :
      (d : TaskDetails F) (j : Json F)
      → encode_task_body fl encode_time (details_body d) ≡ some j
      → is_response documented_task 200 j ≡ true
  unfolding encode_task_body
  details-is_response d j h = elim (Option-cases (encode_details fl encode_time d)) [
    | inl failed ↦ cc (rw (failed, encode_task_body) at h)
    | inr (o, given) ↦
        let same : object o ≡ j = ground (arith, given) in
        subst (λ x. is_response documented_task 200 x ≡ true) same
          (subst (λ x. are_fields F details_properties x ≡ true) given
            (encode_details-are_fields d))
  ]
