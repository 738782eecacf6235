-- ===== src/Worker/Sample.antt =====
-- A configuration of the worker and a wait that is never cut short, for tests and witnesses.
use ya_lyceum_go_project_fin.Prelude.{none}
use ya_lyceum_go_project_fin.Float64.{pos}
use ya_lyceum_go_project_fin.Worker.Calculator.{CalculationTimeConfig, Sleep}

abbrev pub delays : CalculationTimeConfig
delays = record {
  addition = pos 200;
  subtraction = pos 200;
  multiplication = pos 300;
  division = pos 400;
  exponentiation = pos 500;
}

abbrev pub timer : Sleep
timer d = none
