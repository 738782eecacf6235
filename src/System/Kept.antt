-- ===== src/System/Kept.antt =====
-- The columns of a task that never change, along a run of the system.
use ya_lyceum_go_project_fin.Prelude.{refl, ◌∙◌, Option, none, some}
use ya_lyceum_go_project_fin.Grpc.{Rpc}
use ya_lyceum_go_project_fin.Float64.{Arith}
use ya_lyceum_go_project_fin.Worker.Calculator.{CalculationTimeConfig, Sleep}
use ya_lyceum_go_project_fin.Database.{Uuid, Task, find_task}
use ya_lyceum_go_project_fin.Orchestrator.Evaluator.{Place, Surroundings}
use ya_lyceum_go_project_fin.Orchestrator.Evaluator.Meaning.{IsHonest}
use ya_lyceum_go_project_fin.Orchestrator.Server.{Libraries}
use ya_lyceum_go_project_fin.System.{System, Reaches, at_start, after}
use ya_lyceum_go_project_fin.System.Sound.{IsSound}
use ya_lyceum_go_project_fin.System.Invariant.{Reaches-IsSound}
use ya_lyceum_go_project_fin.System.Phases.{Keeps}
use ya_lyceum_go_project_fin.System.Lifecycle.{Step-Evolves}

module _ {F : Type 0} where
  Keeps-trans : (o : Option (Task F)) (p q : Option (Task F)) → Keeps o p → Keeps p q → Keeps o q
  Keeps-trans none p q h h' = tt
  Keeps-trans (some t) none q h h' = absurd h
  Keeps-trans (some t) (some u) none h h' = absurd h'
  Keeps-trans (some t) (some u) (some w) (a, b, c, d) (a', b', c', d') =
      (a' ∙ a, b' ∙ b, c' ∙ c, d' ∙ d)

  Keeps-refl : (o : Option (Task F)) → Keeps o o
  Keeps-refl none = tt
  Keeps-refl (some t) = (refl, refl, refl, refl)

module _ {F : Type 0} (fl : Arith F) (rpc : Rpc) (libs : Libraries F)
    (around : Uuid → Surroundings F) (cfg : CalculationTimeConfig)
    (sleep : Uuid → Place → Sleep) where
  pub Reaches-Keeps :
      {s t : System F} (k : Uuid)
      → ((k : Uuid) → IsHonest fl rpc cfg (around k) (sleep k))
      → IsSound fl libs s.db s.running
      → Reaches fl rpc libs around s t
      → Keeps (find_task k s.db.tasks) (find_task k t.db.tasks)
  Reaches-Keeps {s = s} k honest sound at_start = Keeps-refl (find_task k s.db.tasks)
  Reaches-Keeps {s = s} k honest sound (after r st) =
      Keeps-trans (find_task k s.db.tasks) _ _ (Reaches-Keeps k honest sound r) (
        (Step-Evolves fl rpc libs around _ _ k
          (Reaches-IsSound fl rpc libs around cfg sleep honest r sound) st).1)
