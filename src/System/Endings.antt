-- ===== src/System/Endings.antt =====
-- The goroutines can end their tasks.
use ya_lyceum_go_project_fin.Prelude.{String, ◌≡◌, inl, inr, refl, ap, ◌∙◌, subst, none, some, List}
use ya_lyceum_go_project_fin.Errors.{Result, ok, err}
use ya_lyceum_go_project_fin.Grpc.{Rpc}
use ya_lyceum_go_project_fin.Float64.{Arith}
use ya_lyceum_go_project_fin.Database.{Uuid, Task, Call, find_task}
use ya_lyceum_go_project_fin.Orchestrator.Evaluator.{Surroundings}
use ya_lyceum_go_project_fin.Orchestrator.Repository.{status_processing}
use ya_lyceum_go_project_fin.Orchestrator.Repository.Rows.{
  Write, to_status, to_result, to_error, written, run-written,
}
use ya_lyceum_go_project_fin.Orchestrator.Server.{
  Libraries, Evaluation, submit_expression, begin_evaluation, conclude_evaluation, abandon, outcome,
}
use ya_lyceum_go_project_fin.Orchestrator.Server.Endings.{ending, conclude_evaluation-run}
use ya_lyceum_go_project_fin.Orchestrator.Messages.{ExpressionRequest, ExpressionResponse}
use ya_lyceum_go_project_fin.Orchestrator.Server.Submit.{submit_expression-IsAccepted}
use ya_lyceum_go_project_fin.Orchestrator.Server.Growth.{submit_expression-Growth}
use ya_lyceum_go_project_fin.System.Invariant.{submitted-IsSound}
use ya_lyceum_go_project_fin.System.{
  Stage, queued, evaluating, abandoning, Goroutine, System, Picks, first, queue, Step, begins,
  abandons, concludes, Reaches, at_start, after,
}
use ya_lyceum_go_project_fin.System.Sound.{IsSound, Picks-IsSound}
use ya_lyceum_go_project_fin.System.Settled.{HasEnded}

module _ {F : Type 0} (fl : Arith F) (rpc : Rpc) (libs : Libraries F)
    (around : Uuid → Surroundings F) where
  -- The evaluation of task `k`, with the expression `x`, can end.
  pub record CanEnd (k : Uuid) (x : String) (s : System F) (rest : List (Goroutine F))
      : Type 0 where
    pub later_on : System F
    pub reached : Reaches fl rpc libs around s later_on
    pub row : Task F
    pub stored : find_task k later_on.db.tasks ≡ some row
    pub expression : row.expression ≡ x
    pub ended : HasEnded row
    pub others : later_on.running ≡ rest

  written-expression :
      (c : Call) (w : Write F) (t : Task F) → (written c w t).expression ≡ t.expression
  written-expression c (to_status s) t = refl
  written-expression c (to_result v) t = refl
  written-expression c (to_error m) t = refl

  ending-HasEnded :
      (c : Call) (r : Result F) (t : Task F) → HasEnded (written c (ending fl rpc r) t)
  ending-HasEnded c (ok v) t = inl refl
  ending-HasEnded c (err e) t = inr refl

  evaluating-CanEnd :
      (c : Call) (ev : Evaluation F) (s : System F) (rest : List (Goroutine F)) (t : Task F)
      → c.fault ≡ none
      → find_task ev.task_id s.db.tasks ≡ some t
      → t.expression ≡ ev.expression
      → Picks s.running (record { evaluation = ev; stage = evaluating }) rest
      → CanEnd ev.task_id ev.expression s rest
  evaluating-CanEnd c ev s rest t calm found source p =
      let r = outcome fl rpc (around ev.task_id) ev in
      record {
        later_on = record { db = conclude_evaluation rpc c ev.task_id r s.db; running = rest };
        reached = after at_start (concludes c ev rest p refl);
        row = written c (ending fl rpc r) t;
        stored =
            rw (conclude_evaluation-run fl rpc c ev.task_id r s.db)
              ((run-written rpc c ev.task_id (ending fl rpc r) s.db t calm found).1);
        expression = written-expression c (ending fl rpc r) t ∙ source;
        ended = ending-HasEnded c r t;
        others = refl;
      }

  Reaches-first :
      {s t u : System F}
      → Step fl rpc libs around s t
      → Reaches fl rpc libs around t u
      → Reaches fl rpc libs around s u
  Reaches-first st at_start = after at_start st
  Reaches-first st (after r last) = after (Reaches-first st r) last

  after_first :
      {s s' : System F} (k : Uuid) (x : String) (rest : List (Goroutine F))
      → Step fl rpc libs around s s'
      → CanEnd k x s' rest
      → CanEnd k x s rest
  after_first k x rest st e = record {
    later_on = e.later_on;
    reached = Reaches-first st e.reached;
    row = e.row;
    stored = e.stored;
    expression = e.expression;
    ended = e.ended;
    others = e.others;
  }

  pub goroutine-CanEnd :
      (c : Call) (s : System F) (ev : Evaluation F) (st : Stage) (rest : List (Goroutine F))
      → c.fault ≡ none
      → IsSound fl libs s.db s.running
      → Picks s.running (record { evaluation = ev; stage = st }) rest
      → CanEnd ev.task_id ev.expression s rest
  unfolding begin_evaluation abandon
  goroutine-CanEnd c s ev queued rest calm sound p =
      let l = (Picks-IsSound fl libs p sound).live.0 in
      let (began, found) =
        run-written rpc c ev.task_id (to_status status_processing) s.db l.task calm l.stored in
      after_first ev.task_id ev.expression rest (begins c ev rest p began refl) (
        evaluating-CanEnd c ev _ rest (written c (to_status status_processing) l.task) calm found
          l.source (first _ rest))
  goroutine-CanEnd c s ev evaluating rest calm sound p =
      let l = (Picks-IsSound fl libs p sound).live.0 in
      evaluating-CanEnd c ev s rest l.task calm l.stored l.source p
  goroutine-CanEnd c s ev (abandoning e) rest calm sound p =
      let l = (Picks-IsSound fl libs p sound).live.0 in
      record {
        later_on = record { db = abandon rpc c ev e s.db; running = rest };
        reached = after at_start (abandons c ev rest e p refl);
        row = written c (to_error _) l.task;
        stored = (run-written rpc c ev.task_id (to_error _) s.db l.task calm l.stored).1;
        expression = l.source;
        ended = inr refl;
        others = refl;
      }

  -- In a sound state, a submission that is answered with an id leads to a state in which, if the
  -- database works, the task with that id can be ended, as completed or failed and with the submitted
  -- expression, while the other goroutines stay as they are.
  pub submit_expression-CanEnd :
      (c c' : Call) (req : ExpressionRequest) (answer : ExpressionResponse) (s : System F)
      → c'.fault ≡ none
      → IsSound fl libs s.db s.running
      → (submit_expression rpc libs c req s.db).answer ≡ ok answer
      → (k : Uuid) × (libs.parse_uuid answer.task_id ≡ ok k)
        × CanEnd k req.expression
            (record {
              db = (submit_expression rpc libs c req s.db).db;
              running = queue (submit_expression rpc libs c req s.db).started s.running;
            })
            s.running
  submit_expression-CanEnd c c' req answer s calm sound answered =
      let a = submit_expression-IsAccepted rpc libs c req s.db answer answered in
      let x = submit_expression rpc libs c req s.db in
      let sound' =
        submitted-IsSound fl rpc libs c s.db s.running x
          (submit_expression-Growth rpc libs c s.db req) sound in
      let next =
        goroutine-CanEnd c' (record { db = x.db; running = queue x.started s.running }) a.evaluation
          queued s.running calm sound' (rw a.started (first _ s.running)) in
      (
        a.evaluation.task_id,
        ap libs.parse_uuid a.named ∙ libs.parse_uuid-print_uuid a.evaluation.task_id,
        subst
            (λ e.
              CanEnd a.evaluation.task_id e
                (record { db = x.db; running = queue x.started s.running }) s.running)
            a.source next,
      )
