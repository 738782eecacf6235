-- ===== src/Grpc.antt =====
-- What the services use of google.golang.org/grpc: the texts of codes and status errors and
-- `status.FromError`, as parameters; and `Error()`, which prints a status error through them.
pub mod Sample
use ya_lyceum_go_project_fin.Prelude.{String, ◌≡◌, Option, some}
use ya_lyceum_go_project_fin.Errors.{
  Code, Error, sentinel, new, wrap, wrap_two, status, foreign, pg_error, text,
}

pub record Rpc : Type 0 where
  -- `Code.String()` and the `Error()` of a status error
  pub code_text : Code → String
  pub status_text : Code → String → String
  -- `status.FromError(err)`: the code and the message if `ok`
  pub from_error : Error → Option (Code × String)
  pub from_error-status : (c : Code) (m : String) → from_error (status c m) ≡ some (c, m)

-- `err.Error()`
unfoldable pub message : Rpc → Error → String
message rpc (sentinel s) = text s
message rpc (new m) = m
message rpc (wrap m _) = m
message rpc (wrap_two m _ _) = m
message rpc (status c m) = rpc.status_text c m
message rpc (foreign _ m) = m
message rpc (pg_error _ _ m) = m
