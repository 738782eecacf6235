-- ===== src/Orchestrator/Server/Rejections.antt =====
-- SubmitExpression: which error it answers with, and why.
use ya_lyceum_go_project_fin.Prelude.{
  String, ◌≡◌, ◌≢◌, ◌⊎◌, inl, inr, refl, sym, ap, ◌∙◌, subst, true, not, ◌||◌, none, some, [], ◌∷◌,
  str_eq, eq_iff, arith, Bool-cases, Option-cases,
}
use ya_lyceum_go_project_fin.Errors.{
  task_database, Error, status, invalid_argument, internal, is, sprint, Result, ok, err,
  Result-cases,
}
use ya_lyceum_go_project_fin.Grpc.{Rpc, message}
use ya_lyceum_go_project_fin.Database.{Uuid, Db, Call, Fault, has_task, has_user}
use ya_lyceum_go_project_fin.Orchestrator.Ast.{Node}
use ya_lyceum_go_project_fin.Orchestrator.Repository.{create_task}
use ya_lyceum_go_project_fin.Orchestrator.Messages.{ExpressionRequest}
use ya_lyceum_go_project_fin.Orchestrator.Server.{Libraries, Submitted, created, submit_expression}
use ya_lyceum_go_project_fin.Orchestrator.Server.Submit.{submit_expression-created}

module _ {F : Type 0} (rpc : Rpc) (libs : Libraries F) (c : Call) where
  -- Why a request is answered with an error, and with which: the first test that fails decides.
  pub data IsCause (req : ExpressionRequest) (db : Db F) (e : Error) : Type 0 where
    bad_user :
        (x : Error)
        → libs.parse_uuid req.user_id ≡ err x
        → e ≡ status invalid_argument (sprint ("невалидный формат userID: " ∷ message rpc x ∷ []))
        → IsCause req db e
    no_expression :
        (u : Uuid)
        → libs.parse_uuid req.user_id ≡ ok u
        → req.expression ≡ ""
        → e ≡ status invalid_argument "expression не может быть пустым"
        → IsCause req db e
    not_compiled :
        (u : Uuid) (x : Error)
        → libs.parse_uuid req.user_id ≡ ok u
        → req.expression ≢ ""
        → libs.compile req.expression ≡ err x
        → e ≡ status invalid_argument (sprint ("ошибка в выражении: " ∷ message rpc x ∷ []))
        → IsCause req db e
    not_stored :
        (u : Uuid) (root : Node F) (x : Error)
        → libs.parse_uuid req.user_id ≡ ok u
        → req.expression ≢ ""
        → libs.compile req.expression ≡ ok root
        → (create_task rpc c u req.expression db).1 ≡ err x
        → e ≡ status internal "внутренняя ошибка сервера при создании задачи"
        → IsCause req db e

  -- The answer with an error and what it leaves behind.
  abbrev pub IsRejection : ExpressionRequest → Db F → Submitted F → Error → Type 0
  IsRejection req db s e =
      IsCause req db e
      × (s.started ≡ none)
      × ((s.db ≡ db) ⊎ ((f : Fault) × (c.fault ≡ some f) × (f.applied ≡ true)))

  created-IsRejection :
      (req : ExpressionRequest) (u : Uuid) (root : Node F) (db : Db F) (r : Db F × Result Uuid)
      (e : Error)
      → ((x : Error) → r.1 ≡ err x → is task_database x ≡ true)
      → ((r.0 ≡ db)
          ⊎ ((f : Fault) × (c.fault ≡ some f) × (f.applied ≡ true))
          ⊎ ((id : Uuid) × (r.1 ≡ ok id)))
      → ((x : Error)
          → r.1 ≡ err x
          → e ≡ status internal "внутренняя ошибка сервера при создании задачи"
          → IsCause req db e)
      → (created rpc libs u req.expression root r).answer ≡ err e
      → IsRejection req db (created rpc libs u req.expression root r) e
  unfolding created
  created-IsRejection req u root db (db', ok id) e known kept cause h = cc
  created-IsRejection req u root db (db', err x') e known kept cause h =
      (cause x' refl (ground (arith, known x' refl)), refl, ground arith)

  create_task-database :
      (u : Uuid) (x : String) (db : Db F) (e : Error)
      → (create_task rpc c u x db).1 ≡ err e
      → is task_database e ≡ true
  unfolding create_task is
  create_task-database u x db e h = ground arith

  create_task-kept :
      (u : Uuid) (x : String) (db : Db F)
      → ((create_task rpc c u x db).0 ≡ db)
        ⊎ ((f : Fault) × (c.fault ≡ some f) × (f.applied ≡ true))
        ⊎ ((id : Uuid) × ((create_task rpc c u x db).1 ≡ ok id))
  unfolding create_task
  create_task-kept u x db = elim (Option-cases c.fault) [
    | inl calm ↦ elim (Bool-cases (not (has_user u db.users) || has_task c.fresh_id db.tasks)) [
      | inl violated ↦ inl (ground arith)
      | inr fits ↦ inr (inr (c.fresh_id, ground arith))
    ]
    | inr (f, faulty) ↦ elim (Bool-cases f.applied) [
      | inl applied ↦ inr (inl (f, faulty, applied))
      | inr lost ↦ inl (ground arith)
    ]
  ]

  invalid-IsRejection :
      (req : ExpressionRequest) (db : Db F) (s : Submitted F) (m : String) (e : Error)
      → s ≡ record { db = db; started = none; answer = err (status invalid_argument m) }
      → (e ≡ status invalid_argument m → IsCause req db e)
      → s.answer ≡ err e
      → IsRejection req db s e
  invalid-IsRejection req db s m e same cause h =
      (cause (cc (ap (λ x. x.answer) same)), ap (λ x. x.started) same, inl (ap (λ x. x.db) same))

  -- A request that is answered with an error starts no evaluation. The error is InvalidArgument if the
  -- user's id does not parse, the expression is empty or it does not compile, each with its own text;
  -- and it is Internal, with a fixed text, if all this is in order and the insertion failed. The
  -- database is as before, unless a fault was reported after the insertion had taken effect.
  pub submit_expression-IsRejection :
      (req : ExpressionRequest) (db : Db F) (e : Error)
      → (submit_expression rpc libs c req db).answer ≡ err e
      → IsRejection req db (submit_expression rpc libs c req db) e
  submit_expression-IsRejection req db e h = elim (Result-cases (libs.parse_uuid req.user_id)) [
    | inr (x, bad) ↦
        invalid-IsRejection req db (submit_expression rpc libs c req db)
          (sprint ("невалидный формат userID: " ∷ message rpc x ∷ [])) e
          (unfold submit_expression in rw (bad, submit_expression)) (bad_user x bad) h
    | inl (u, parsed) ↦ elim (Bool-cases (str_eq req.expression "")) [
      | inl empty ↦
          invalid-IsRejection req db (submit_expression rpc libs c req db)
            "expression не может быть пустым" e
            (unfold submit_expression in rw (parsed, empty, submit_expression))
            (no_expression u parsed ((eq_iff _ _).0 empty)) h
      | inr filled ↦ elim (Result-cases (libs.compile req.expression)) [
        | inr (x, bad) ↦
            invalid-IsRejection req db (submit_expression rpc libs c req db)
              (sprint ("ошибка в выражении: " ∷ message rpc x ∷ [])) e
              (unfold submit_expression in rw (parsed, filled, bad, submit_expression))
              (not_compiled u x parsed (ground (arith, eq_iff req.expression "")) bad) h
        | inl (root, compiled) ↦
            let same = submit_expression-created rpc libs c req db u root parsed filled compiled in
            subst (λ s. IsRejection req db s e) (sym same)
              (created-IsRejection req u root db (create_task rpc c u req.expression db) e
                (create_task-database u req.expression db) (create_task-kept u req.expression db)
                (λ x failed.
                  not_stored u root x parsed (ground (arith, eq_iff req.expression "")) compiled
                    failed)
                (ap (λ s. s.answer) (sym same) ∙ h))
      ]
    ]
  ]
