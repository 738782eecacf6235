-- ===== src/Orchestrator/Server/Submit.antt =====
-- SubmitExpression: when it creates a task and starts an evaluation.
use ya_lyceum_go_project_fin.Prelude.{
  String, ◌≡◌, ◌≢◌, inl, inr, refl, sym, ap, ◌∙◌, false, none, some, [], ◌∷◌, str_eq, eq_iff, arith,
  Bool-cases,
}
use ya_lyceum_go_project_fin.Errors.{Result, ok, err, Result-cases}
use ya_lyceum_go_project_fin.Grpc.{Rpc}
use ya_lyceum_go_project_fin.Database.{Uuid, Db, Call, find_task}
use ya_lyceum_go_project_fin.Database.Tables.{find_task-append, find_task-eq_none}
use ya_lyceum_go_project_fin.Orchestrator.Ast.{Node}
use ya_lyceum_go_project_fin.Orchestrator.Repository.{create_task}
use ya_lyceum_go_project_fin.Orchestrator.Repository.Rows.{new_row, create_task-ok}
use ya_lyceum_go_project_fin.Orchestrator.Messages.{ExpressionRequest, ExpressionResponse}
use ya_lyceum_go_project_fin.Orchestrator.Server.{
  Libraries, Evaluation, Submitted, created, submit_expression,
}

module _ {F : Type 0} (rpc : Rpc) (libs : Libraries F) (c : Call) where
  -- What a request that is answered without an error has brought about.
  pub record IsAccepted (req : ExpressionRequest) (db : Db F) (s : Submitted F)
      (answer : ExpressionResponse) : Type 0 where
    pub evaluation : Evaluation F
    pub started : s.started ≡ some evaluation
    pub named : answer.task_id ≡ libs.print_uuid evaluation.task_id
    pub user : libs.parse_uuid req.user_id ≡ ok evaluation.user_id
    pub source : evaluation.expression ≡ req.expression
    pub compiled : libs.compile req.expression ≡ ok evaluation.root
    pub not_empty : req.expression ≢ ""
    pub stored :
        find_task evaluation.task_id s.db.tasks ≡ some (new_row c evaluation.user_id req.expression)
    pub fresh : find_task evaluation.task_id db.tasks ≡ none

  pub submit_expression-created :
      (req : ExpressionRequest) (db : Db F) (u : Uuid) (root : Node F)
      → libs.parse_uuid req.user_id ≡ ok u
      → str_eq req.expression "" ≡ false
      → libs.compile req.expression ≡ ok root
      → submit_expression rpc libs c req db
        ≡ created rpc libs u req.expression root (create_task rpc c u req.expression db)
  unfolding submit_expression
  submit_expression-created req db u root parsed filled compiled =
      rw (parsed, filled, compiled, submit_expression)

  created-ok :
      (u : Uuid) (x : String) (root : Node F) (r : Db F × Result Uuid) (answer : ExpressionResponse)
      → (created rpc libs u x root r).answer ≡ ok answer
      → (id : Uuid) × (r ≡ (r.0, ok id))
        × (answer.task_id ≡ libs.print_uuid id)
        × (created rpc libs u x root r ≡ record {
          db = r.0;
          started = some (record { task_id = id; user_id = u; expression = x; root = root });
          answer = ok (record { task_id = libs.print_uuid id });
        })
  unfolding created
  created-ok u x root (db, ok id) answer h = (id, refl, ground arith, refl)
  created-ok u x root (db, err e) answer h = cc

  create_task-stored :
      (u id : Uuid) (x : String) (db db' : Db F)
      → create_task rpc c u x db ≡ (db', ok id)
      → (find_task id db'.tasks ≡ some (new_row c u x)) × (find_task id db.tasks ≡ none)
  create_task-stored u id x db db' h =
      let (_, owner, fresh, is_fresh, grown) = create_task-ok rpc c u id x db db' h in
      (
        ground (arith, find_task-append id db.tasks (new_row c u x ∷ [])),
        ground (arith, find_task-eq_none id db.tasks),
      )

  accepted :
      (req : ExpressionRequest) (db : Db F) (answer : ExpressionResponse) (u : Uuid) (root : Node F)
      → libs.parse_uuid req.user_id ≡ ok u
      → str_eq req.expression "" ≡ false
      → libs.compile req.expression ≡ ok root
      → (submit_expression rpc libs c req db).answer ≡ ok answer
      → IsAccepted req db (submit_expression rpc libs c req db) answer
  accepted req db answer u root parsed filled compiled h =
      let same = submit_expression-created req db u root parsed filled compiled in
      let (id, made, named, shape) =
        created-ok u req.expression root (create_task rpc c u req.expression db) answer
          (ap (λ s. s.answer) (sym same) ∙ h) in
      let (stored, fresh) = create_task-stored u id req.expression db _ made in
      rw (same ∙ shape) (record {
        evaluation = record { task_id = id; user_id = u; expression = req.expression; root = root };
        started = refl;
        named = named;
        user = parsed;
        source = refl;
        compiled = compiled;
        not_empty = ground (arith, eq_iff req.expression "");
        stored = stored;
        fresh = fresh;
      })

  -- A request that is answered without an error names a user by a valid id and holds a non-empty
  -- expression that compiles. Its answer is the id of a task that was not there before and now is:
  -- pending, of that user, with the expression and with no result; and exactly one evaluation is
  -- started, of that task, with the tree that the compiler gave.
  pub submit_expression-IsAccepted :
      (req : ExpressionRequest) (db : Db F) (answer : ExpressionResponse)
      → (submit_expression rpc libs c req db).answer ≡ ok answer
      → IsAccepted req db (submit_expression rpc libs c req db) answer
  unfolding submit_expression
  submit_expression-IsAccepted req db answer h = elim (Result-cases (libs.parse_uuid req.user_id)) [
    | inr (e, bad) ↦ cc (rw (bad, submit_expression) at h)
    | inl (u, parsed) ↦ elim (Bool-cases (str_eq req.expression "")) [
      | inl empty ↦ cc (rw (parsed, empty, submit_expression) at h)
      | inr filled ↦ elim (Result-cases (libs.compile req.expression)) [
        | inr (e, bad) ↦ cc (rw (parsed, filled, bad, submit_expression) at h)
        | inl (root, compiled) ↦ accepted req db answer u root parsed filled compiled h
      ]
    ]
  ]
