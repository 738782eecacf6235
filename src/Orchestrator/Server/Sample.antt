-- ===== src/Orchestrator/Server/Sample.antt =====
-- Stand-ins for the libraries of the service, for tests and witnesses.
use Prim.Native.String.{count}
use ya_lyceum_go_project_fin.Prelude.{refl}
use ya_lyceum_go_project_fin.Errors.{ok}
use ya_lyceum_go_project_fin.Float64.Sample.{Num}
use ya_lyceum_go_project_fin.Database.Sample.{print_dashes, parsed_length, count-print_dashes}
use ya_lyceum_go_project_fin.Orchestrator.Evaluator.Sample.{product}
use ya_lyceum_go_project_fin.Orchestrator.Server.{Libraries}

-- The compiler gives the tree of the tests.
abbrev pub sample_libs : Libraries Num
sample_libs = record {
  parse_uuid = λ s. parsed_length (count s);
  print_uuid = print_dashes;
  parse_uuid-print_uuid = λ u. rw (count-print_dashes u) refl;
  compile = λ s. ok product;
  format_time = λ t. "2026-01-01T00:00:00Z";
}
