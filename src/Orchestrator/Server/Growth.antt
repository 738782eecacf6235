-- ===== src/Orchestrator/Server/Growth.antt =====
-- What SubmitExpression does to the database and which goroutine it starts, on all of its branches.
use ya_lyceum_go_project_fin.Prelude.{
  String, ◌≡◌, inl, inr, ap, true, false, none, some, [], ◌∷◌, ◌++◌, str_eq, Bool-cases, arith,
}
use ya_lyceum_go_project_fin.Errors.{Error, ok, err, Result-cases}
use ya_lyceum_go_project_fin.Grpc.{Rpc}
use ya_lyceum_go_project_fin.Database.{Uuid, Db, Call, has_task, has_user}
use ya_lyceum_go_project_fin.Orchestrator.Ast.{Node}
use ya_lyceum_go_project_fin.Orchestrator.Repository.{create_task}
use ya_lyceum_go_project_fin.Orchestrator.Repository.Rows.{
  new_row, create_task-ok, create_task-cases,
}
use ya_lyceum_go_project_fin.Orchestrator.Messages.{ExpressionRequest}
use ya_lyceum_go_project_fin.Orchestrator.Server.{
  Libraries, Evaluation, Submitted, created, submit_expression,
}

module _ {F : Type 0} (rpc : Rpc) (libs : Libraries F) (c : Call) (db : Db F) where
  abbrev pub with_task : Uuid → String → Db F
  with_task u x = record db { tasks = db.tasks ++ new_row c u x ∷ [] }

  pub data Growth (s : Submitted F) : Type 0 where
    unchanged : s.started ≡ none → s.db ≡ db → Growth s
    -- The insertion took effect and was reported as a fault.
    orphaned :
        (u : Uuid) (x : String)
        → s.started ≡ none
        → has_task c.fresh_id db.tasks ≡ false
        → has_user u db.users ≡ true
        → s.db ≡ with_task u x
        → Growth s
    started :
        (ev : Evaluation F)
        → s.started ≡ some ev
        → ev.task_id ≡ c.fresh_id
        → libs.compile ev.expression ≡ ok ev.root
        → has_task c.fresh_id db.tasks ≡ false
        → has_user ev.user_id db.users ≡ true
        → s.db ≡ with_task ev.user_id ev.expression
        → Growth s

  created_failed :
      (u : Uuid) (x : String) (root : Node F) (e : Error)
      → (create_task rpc c u x db).1 ≡ err e
      → Growth (created rpc libs u x root (create_task rpc c u x db))
  unfolding created
  created_failed u x root e h = elim (create_task-cases rpc c u x db) [
    | inl same ↦ unchanged (ground arith) (ground (arith, same))
    | inr (fresh, owner, grown) ↦ orphaned u x (ground arith) fresh owner (ground (arith, grown))
  ]

  created_started :
      (u id : Uuid) (x : String) (root : Node F)
      → libs.compile x ≡ ok root
      → (create_task rpc c u x db).1 ≡ ok id
      → Growth (created rpc libs u x root (create_task rpc c u x db))
  unfolding created
  created_started u id x root compiled h =
      let (_, owner, fresh, is_fresh, grown) =
        create_task-ok rpc c u id x db (create_task rpc c u x db).0
          (ap (λ r. ((create_task rpc c u x db).0, r)) h) in
      started (record { task_id = id; user_id = u; expression = x; root = root }) (ground arith)
        is_fresh compiled fresh owner (ground (arith, grown))

  pub submit_expression-Growth :
      (req : ExpressionRequest) → Growth (submit_expression rpc libs c req db)
  unfolding submit_expression
  submit_expression-Growth req = elim (Result-cases (libs.parse_uuid req.user_id)) [
    | inr (e, bad) ↦ unchanged (rw (bad, submit_expression)) (rw (bad, submit_expression))
    | inl (u, parsed) ↦ elim (Bool-cases (str_eq req.expression "")) [
      | inl empty ↦
          unchanged (rw (parsed, empty, submit_expression)) (rw (parsed, empty, submit_expression))
      | inr filled ↦ elim (Result-cases (libs.compile req.expression)) [
        | inr (e, bad) ↦
            unchanged (rw (parsed, filled, bad, submit_expression))
              (rw (parsed, filled, bad, submit_expression))
        | inl (root, compiled) ↦
            rw (parsed, filled, compiled, submit_expression)
              (elim (Result-cases (create_task rpc c u req.expression db).1) [
                | inl (id, made) ↦ created_started u id req.expression root compiled made
                | inr (e, failed) ↦ created_failed u req.expression root e failed
              ])
      ]
    ]
  ]
