-- ===== src/Agent/Tasks/Rejections.antt =====
-- What POST /calculate answers to expressions that are not accepted.
use ya_lyceum_go_project_fin.Prelude.{
  String, ◌≡◌, ◌≢◌, ◌⊎◌, ◌↔◌, inl, inr, refl, ◌∙◌, Option, none, some, [], ◌∷◌, str_eq, eq_iff,
  arith, false, Bool-cases,
}
use ya_lyceum_go_project_fin.Errors.{Error, status, invalid_argument, sprint, ok, err, Result-cases}
use ya_lyceum_go_project_fin.Grpc.{Rpc, message}
use ya_lyceum_go_project_fin.Database.{Uuid, Db, Call}
use ya_lyceum_go_project_fin.Orchestrator.Messages.{ExpressionRequest}
use ya_lyceum_go_project_fin.Orchestrator.Server.{Libraries, submit_expression}
use ya_lyceum_go_project_fin.Agent.Tasks.{Client, submit_new_task}
use ya_lyceum_go_project_fin.Agent.Tasks.Handlers.{failure_body, handle_calculate}

module _ {F : Type 0} (rpc : Rpc) (client : Client F) where
  handle_calculate-bad_request :
      (user_id : String) (req : Option String)
      → ((handle_calculate rpc client (some user_id) req).0 ≡ 400)
        ↔ ((req ≡ none) ⊎ (req ≡ some ""))
  unfolding handle_calculate
  handle_calculate-bad_request user_id none = (λ h. inl refl, λ h. refl)
  handle_calculate-bad_request user_id (some x) = elim (Bool-cases (str_eq x "")) [
    | inl empty ↦ (λ h. inr (ground (arith, eq_iff x "")), λ h. rw empty)
    | inr filled ↦ elim (Result-cases (submit_new_task rpc client user_id x)) [
      | inl (id, given) ↦ (
        λ h.
            let wrong = rw (filled, given, handle_calculate) at h in
            let no : ⊥ = omega arith in absurd no,
        λ h. ground (arith, eq_iff x ""),
      )
      | inr (e, failed) ↦ (
        λ h.
            let wrong = rw (filled, failed, handle_calculate) at h in
            let no : ⊥ = omega arith in absurd no,
        λ h. ground (arith, eq_iff x ""),
      )
    ]
  ]

  -- POST /calculate, past the middleware, is answered with 400 exactly if the body cannot be
  -- read or holds an empty expression. Over the Orchestrator's SubmitExpression, and for a user
  -- with a valid id, an expression that is not empty and does not compile is answered with 500
  -- and the text of the status InvalidArgument, no task is stored and no evaluation is started.
  pub handle_calculate_invalid :
      (libs : Libraries F) (c : Call) (db : Db F) (user_id x : String) (u : Uuid) (e : Error)
      → ((req : ExpressionRequest)
          → client.submit_expression req ≡ (submit_expression rpc libs c req db).answer)
      → libs.parse_uuid user_id ≡ ok u
      → x ≢ ""
      → libs.compile x ≡ err e
      → ((req : Option String)
          → ((handle_calculate rpc client (some user_id) req).0 ≡ 400)
            ↔ ((req ≡ none) ⊎ (req ≡ some "")))
        × (handle_calculate rpc client (some user_id) (some x) ≡ (
          500,
          failure_body (
              sprint (
                "ошибка сервиса вычислений: "
                ∷ rpc.status_text invalid_argument
                    (sprint ("ошибка в выражении: " ∷ message rpc e ∷ []))
                ∷ [])),
        ))
        × ((submit_expression rpc libs c (record { user_id = user_id; expression = x }) db).started
            ≡ none)
        × ((submit_expression rpc libs c (record { user_id = user_id; expression = x }) db).db ≡ db)
  unfolding handle_calculate submit_expression submit_new_task message
  handle_calculate_invalid libs c db user_id x u e relays parsed filled broken =
      let unequal : str_eq x "" ≡ false = ground (arith, eq_iff x "") in
      let req : ExpressionRequest = record { user_id = user_id; expression = x } in
      let refused : (submit_expression rpc libs c req db).answer
          ≡ err (status invalid_argument (sprint ("ошибка в выражении: " ∷ message rpc e ∷ []))) =
        rw (parsed, unequal, broken, submit_expression) refl in
      (
        handle_calculate-bad_request user_id,
        rw (unequal, relays req ∙ refused, handle_calculate, submit_new_task) refl,
        rw (parsed, unequal, broken, submit_expression) refl,
        rw (parsed, unequal, broken, submit_expression) refl,
      )
