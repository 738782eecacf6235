-- ===== src/Orchestrator/Evaluator/Sample.antt =====
-- An evaluation over the worker with nothing lost, for tests and witnesses.
use ya_lyceum_go_project_fin.Prelude.{ℕ, refl, false, none, decimal}
use ya_lyceum_go_project_fin.Grpc.Sample.{sample_rpc}
use ya_lyceum_go_project_fin.Float64.{pos}
use ya_lyceum_go_project_fin.Float64.Sample.{Num, sample}
use ya_lyceum_go_project_fin.Worker.Sample.{delays, timer}
use ya_lyceum_go_project_fin.Worker.Calculator.{calculate}
use ya_lyceum_go_project_fin.Worker.Server.{calculate_operation}
use ya_lyceum_go_project_fin.Orchestrator.Ast.{Node, integer, unary, binary}
use ya_lyceum_go_project_fin.Orchestrator.Evaluator.{Surroundings, evaluate}
use ya_lyceum_go_project_fin.Orchestrator.Evaluator.Meaning.{IsHonest}
use ya_lyceum_go_project_fin.Orchestrator.Evaluator.Complete.{IsReliable}

-- A network that loses nothing, and a context that is never done.
abbrev pub calm : Surroundings Num
calm = record {
  ctx_err = λ p. none;
  right_first = λ p. false;
  operation_id = λ p. "op";
  reply = λ p req. calculate_operation sample sample_rpc delays timer req;
  op_ctx_err = λ p. none;
}

abbrev pub num : ℕ → Node Num
num n = integer (pos n)

-- (2 + 2) * -4
abbrev pub product : Node Num
product = binary "*" (binary "+" (num 2) (num 2)) (unary "-" (num 4))

unfoldable pub evaluator : Unit {0}
unfolding evaluate calculate_operation calculate decimal
evaluator = tt

pub calm-IsHonest : IsHonest sample sample_rpc delays calm (λ p. timer)
calm-IsHonest = record { from_worker = λ p req h. refl; from_context = λ p d e h. cc }

pub calm-IsReliable : IsReliable sample sample_rpc delays calm (λ p. timer)
calm-IsReliable = record {
  running = λ p. refl;
  slept = λ p d. refl;
  identified = λ p e. cc;
  delivered = λ p req h. refl;
}
