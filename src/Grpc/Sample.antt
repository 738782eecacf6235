-- ===== src/Grpc/Sample.antt =====
-- A stand-in for package status, on which the tests and witnesses run.
use ya_lyceum_go_project_fin.Prelude.{String, refl, Option, none, some, [], ◌∷◌}
use ya_lyceum_go_project_fin.Errors.{Code, Error, status, not_found, invalid_argument, sprint}
use ya_lyceum_go_project_fin.Grpc.{Rpc}

abbrev code_name : Code → String
code_name not_found = "NotFound"
code_name invalid_argument = "InvalidArgument"
code_name _ = "Other"

abbrev read_status : Error → Option (Code × String)
read_status (status c m) = some (c, m)
read_status _ = none

abbrev pub sample_rpc : Rpc
sample_rpc = record {
  code_text = code_name;
  status_text = λ c m. sprint ("rpc error: code = " ∷ code_name c ∷ " desc = " ∷ m ∷ []);
  from_error = read_status;
  from_error-status = λ c m. refl;
}
