-- ===== src/Agent/Api/Answers.antt =====
-- That the answers of the handlers for tasks are documented.
use ya_lyceum_go_project_fin.Prelude.{
  ℕ, String, ◌≡◌, refl, subst, inl, inr, Bool, true, false, Option, none, some, arith,
  if◌then◌else◌,
}
use ya_lyceum_go_project_fin.Errors.{Error, Result, ok, err, Result-cases}
use ya_lyceum_go_project_fin.Grpc.{Rpc}
use ya_lyceum_go_project_fin.Float64.{Arith}
use ya_lyceum_go_project_fin.Database.{Uuid}
use ya_lyceum_go_project_fin.Agent.Middleware.{Passage, unauthorized, passed}
use ya_lyceum_go_project_fin.Agent.Tasks.{Client, get_user_tasks, task_details}
use ya_lyceum_go_project_fin.Agent.Tasks.Handlers.{
  TaskAnswer, failure_body, accepted_body, handle_calculate, handle_get_tasks, handle_get_task,
}
use ya_lyceum_go_project_fin.Agent.App.{through}
use ya_lyceum_go_project_fin.Agent.Json.{Json, object, text_field, encode_task_body}
use ya_lyceum_go_project_fin.Agent.Docs.{
  Operation, definition, find_response, documented_calculate, documented_tasks, documented_task,
}
use ya_lyceum_go_project_fin.Agent.Docs.Matching.{is_response}
use ya_lyceum_go_project_fin.Agent.Docs.Responses.{list-is_response, details-is_response}

module _ {F : Type 0} (fl : Arith F) (encode_time : ℕ → Option String) where
  -- An answer that is described, if it can be encoded.
  pub record IsAnswerOf (op : Operation) (a : TaskAnswer F) : Type 0 where
    pub described :
        (j : Json F) → encode_task_body fl encode_time a.1 ≡ some j → is_response op a.0 j ≡ true

  IsAnswerOf-if :
      (op : Operation) (b : Bool) (x y : TaskAnswer F)
      → IsAnswerOf op x
      → IsAnswerOf op y
      → IsAnswerOf op (if b then x else y)
  IsAnswerOf-if op true x y h h' = h
  IsAnswerOf-if op false x y h h' = h'

  IsAnswerOf-result :
      {A : Type 0} (op : Operation) (r : Result A) (f : Error → TaskAnswer F) (g : A → TaskAnswer F)
      → ((e : Error) → IsAnswerOf op (f e))
      → ((a : A) → IsAnswerOf op (g a))
      → IsAnswerOf op (elim r [ err e ↦ f e | ok a ↦ g a ])
  IsAnswerOf-result op (err e) f g h h' = h e
  IsAnswerOf-result op (ok a) f g h h' = h' a

  failure-IsAnswerOf :
      (op : Operation) (status : ℕ) (m : String)
      → find_response status op.responses ≡ some (definition "handler.ErrorResponse")
      → IsAnswerOf op (status, failure_body m)
  unfolding encode_task_body
  failure-IsAnswerOf op status m known = record {
    described = λ j h.
        let same : object (text_field "error" m) ≡ j = ground arith in
        subst (λ x. is_response op status x ≡ true) same (rw known);
  }

  accepted-IsAnswerOf : (id : String) → IsAnswerOf documented_calculate (202, accepted_body id)
  unfolding encode_task_body
  accepted-IsAnswerOf id = record {
    described = λ j h.
        let same : object (text_field "task_id" id) ≡ j = ground arith in
        subst (λ x. is_response documented_calculate 202 x ≡ true) same refl;
  }

module _ {F : Type 0} (fl : Arith F) (encode_time : ℕ → Option String) (rpc : Rpc)
    (client : Client F) where
  pub calculate-IsAnswerOf :
      (user_id : String) (req : Option String)
      → IsAnswerOf fl encode_time documented_calculate
          (handle_calculate rpc client (some user_id) req)
  unfolding handle_calculate
  calculate-IsAnswerOf user_id none =
      failure-IsAnswerOf fl encode_time documented_calculate 400 _ refl
  calculate-IsAnswerOf user_id (some x) =
      IsAnswerOf-if fl encode_time documented_calculate _ _ _
        (failure-IsAnswerOf fl encode_time documented_calculate 400 _ refl)
        (IsAnswerOf-result fl encode_time documented_calculate _ _ _
          (λ e. failure-IsAnswerOf fl encode_time documented_calculate 500 _ refl)
          (λ id. accepted-IsAnswerOf fl encode_time id))

  pub tasks-IsAnswerOf :
      (user_id : String)
      → IsAnswerOf fl encode_time documented_tasks (handle_get_tasks rpc client (some user_id))
  unfolding handle_get_tasks
  tasks-IsAnswerOf user_id = elim (Result-cases (get_user_tasks rpc client user_id)) [
    | inr (e, failed) ↦
        rw (failed, handle_get_tasks)
          (failure-IsAnswerOf fl encode_time documented_tasks 500 _ refl)
    | inl (ts, given) ↦
        rw (given, handle_get_tasks) (record { described = list-is_response fl encode_time ts })
  ]

  pub task-IsAnswerOf :
      (parse_uuid : String → Result Uuid) (user_id id : String)
      → IsAnswerOf fl encode_time documented_task
          (handle_get_task rpc client parse_uuid (some user_id) id)
  unfolding handle_get_task
  task-IsAnswerOf parse_uuid user_id id = elim (Result-cases (parse_uuid id)) [
    | inr (e, bad) ↦
        rw (bad, handle_get_task) (failure-IsAnswerOf fl encode_time documented_task 400 _ refl)
    | inl (k, parsed) ↦ elim (Result-cases (task_details rpc client user_id id)) [
      | inl (d, given) ↦
          rw (parsed, given, handle_get_task)
            (record { described = details-is_response fl encode_time d })
      | inr (e, failed) ↦
          rw (parsed, failed, handle_get_task)
            (IsAnswerOf-if fl encode_time documented_task _ _ _
              (failure-IsAnswerOf fl encode_time documented_task 404 _ refl)
              (failure-IsAnswerOf fl encode_time documented_task 500 _ refl))
    ]
  ]

  pub through-IsAnswerOf :
      (op : Operation) (p : Passage) (next : Option String → TaskAnswer F)
      → find_response 401 op.responses ≡ some (definition "handler.ErrorResponse")
      → ((user_id : String) → IsAnswerOf fl encode_time op (next (some user_id)))
      → IsAnswerOf fl encode_time op (through p next)
  through-IsAnswerOf op (unauthorized m) next known h =
      failure-IsAnswerOf fl encode_time op 401 m known
  through-IsAnswerOf op (passed user_id) next known h = h user_id
