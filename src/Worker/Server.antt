-- ===== src/Worker/Server.antt =====
-- internal/worker/grpc_handler/worker_server.go, over the messages of proto/gen/worker.
use ya_lyceum_go_project_fin.Prelude.{String, ◌||◌, Option, none, some, str_eq, if◌then◌else◌}
use ya_lyceum_go_project_fin.Errors.{
  division_by_zero, unknown_operator, canceled, deadline_exceeded, Error, status, invalid_argument,
  deadline_exceeded_code, internal, is, Result, ok, err,
}
use ya_lyceum_go_project_fin.Grpc.{Rpc, message}
use ya_lyceum_go_project_fin.Float64.{Arith}
use ya_lyceum_go_project_fin.Worker.Calculator.{CalculationTimeConfig, Sleep, calculate}

pub record CalculateOperationRequest (F : Type 0) : Type 0 where
  pub operation_id : String
  pub operation_symbol : String
  pub operand_a : F
  pub operand_b : F

pub record CalculateOperationResponse (F : Type 0) : Type 0 where
  pub operation_id : String
  pub result : F
  pub error_message : String

-- A handler returns a response and an error, and may return both.
abbrev pub Returned : Type 0 → Type 0
Returned F = Option (CalculateOperationResponse F) × Option Error

module _ {F : Type 0} (fl : Arith F) (rpc : Rpc) where
  -- The code and the text of the error that goes with a failed calculation.
  unfoldable pub failure : Error → Error
  unfolding is message
  failure e =
      if is division_by_zero e || is unknown_operator e
      then status invalid_argument (message rpc e)
      else if is canceled e || is deadline_exceeded e
      then status deadline_exceeded_code "операция отменена или превышен таймаут"
      else status internal "внутренняя ошибка сервера при вычислении"

  unfoldable pub answer : CalculateOperationRequest F → Result F → Returned F
  unfolding failure
  answer req (err e) = (
    some (record {
      operation_id = req.operation_id;
      result = fl.zero;
      error_message = message rpc e;
    }),
    some (failure e),
  )
  answer req (ok result) =
      (some (record { operation_id = req.operation_id; result = result; error_message = "" }), none)

  unfoldable pub calculate_operation :
      CalculationTimeConfig → Sleep → CalculateOperationRequest F → Returned F
  unfolding answer
  calculate_operation cfg sleep req =
      if str_eq req.operation_id "" || str_eq req.operation_symbol ""
      then (none, some (status invalid_argument "operation_id и operation_symbol обязательны"))
      else answer req (calculate fl cfg rpc sleep req.operation_symbol req.operand_a req.operand_b)
