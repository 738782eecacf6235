-- ===== src/Orchestrator/Evaluator.antt =====
-- internal/orchestrator/service/evaluator.go. Each node of the tree is evaluated at most once, so
-- all that the run does not decide itself is given for the node's place: `Surroundings`.
pub mod Meaning
pub mod Join
pub mod Complete
pub mod Failures
pub mod Order
pub mod Sample
mod Tests
use ya_lyceum_go_project_fin.Prelude.{
  ℕ, String, Bool, true, false, ◌||◌, not, Option, none, some, List, [], ◌∷◌, str_eq, decimal,
  if◌then◌else◌,
}
use ya_lyceum_go_project_fin.Errors.{
  Code, unsupported_node_type, evaluation_timeout, canceled, deadline_exceeded, Error, sentinel,
  new, wrap, invalid_argument, deadline_exceeded_code, is, text, sprint, Result, ok, err, map_err,
}
use ya_lyceum_go_project_fin.Grpc.{Rpc, message}
use ya_lyceum_go_project_fin.Float64.{Arith}
use ya_lyceum_go_project_fin.Worker.Server.{
  CalculateOperationRequest, CalculateOperationResponse, Returned,
}
use ya_lyceum_go_project_fin.Orchestrator.Ast.{
  Node, integer, float, unary, binary, call, identifier, listed, other, kind_name, type_name,
}

-- The way from a node up to the root; `true` is a right operand.
abbrev pub Place : Type 0
Place = List Bool

pub record Surroundings (F : Type 0) : Type 0 where
  -- `ctx.Err()` if the test at the head of `Evaluate` finds the context done
  pub ctx_err : Place → Option Error
  -- whether the right operand's goroutine writes to `errChan` first, where both write
  pub right_first : Place → Bool
  -- `uuid.NewString()`
  pub operation_id : Place → String
  -- what the worker's client returns for a request, and `opCtx.Err()` after that
  pub reply : Place → CalculateOperationRequest F → Returned F
  pub op_ctx_err : Place → Option Error

-- `errors.Is(opCtx.Err(), …)` for the two errors of package context
abbrev is_expired : Option Error → Bool
is_expired none = false
is_expired (some e) = is deadline_exceeded e || is canceled e

abbrev is_invalid_argument : Code → Bool
is_invalid_argument invalid_argument = true
is_invalid_argument _ = false

abbrev is_deadline_exceeded : Code → Bool
is_deadline_exceeded deadline_exceeded_code = true
is_deadline_exceeded _ = false

-- `**` of the expression language is `^` of the worker.
abbrev pub op_symbol : String → String
op_symbol op = if str_eq op "**" then "^" else op

abbrev pub left_failure : Rpc → String → Error → Error
left_failure rpc op e = wrap (sprint ("левый операнд для '" ∷ op ∷ "': " ∷ message rpc e ∷ [])) e

abbrev pub right_failure : Rpc → String → Error → Error
right_failure rpc op e = wrap (sprint ("правый операнд для '" ∷ op ∷ "': " ∷ message rpc e ∷ [])) e

-- What the two goroutines of a binary node leave: both values, or the error that is first in
-- `errChan`. The module Join derives this from the steps of the goroutines.
pub data Joined (F : Type 0) : Type 0 where
  values : F → F → Joined F
  failed : Error → Joined F

abbrev pub joined : {F : Type 0} → Rpc → Bool → String → Result F → Result F → Joined F
joined rpc right_first op (ok a) (ok b) = values a b
joined rpc right_first op (err e) (ok b) = failed (left_failure rpc op e)
joined rpc right_first op (ok a) (err f) = failed (right_failure rpc op f)
joined rpc right_first op (err e) (err f) =
    if right_first then failed (right_failure rpc op f) else failed (left_failure rpc op e)

-- The test at the head of `Evaluate`.
unfoldable pub checked : {F : Type 0} → Rpc → Option Error → Result F → Result F
unfolding message
checked rpc none r = r
checked rpc (some e) r =
    err (wrap (sprint ("вычисление узла отменено перед обработкой: " ∷ message rpc e ∷ [])) e)

module _ {F : Type 0} (fl : Arith F) (rpc : Rpc) (w : Surroundings F) where
  -- The branch `grpcErr != nil` of `callWorker`.
  unfoldable pub grpc_failure : Place → String → Error → Error
  unfolding is message
  grpc_failure p op e = elim (rpc.from_error e) [
    | some (code, msg) ↦
        if is_invalid_argument code
        then new msg
        else if is_deadline_exceeded code || is_expired (w.op_ctx_err p)
        then wrap (sprint ("таймаут/отмена операции '" ∷ op ∷ "': " ∷ text evaluation_timeout ∷ []))
            (sentinel evaluation_timeout)
        else new (
            sprint (
              "gRPC ошибка от воркера (код "
              ∷ rpc.code_text code
              ∷ ") при операции '"
              ∷ op
              ∷ "': "
              ∷ msg
              ∷ []))
    | none ↦
        wrap (sprint ("ошибка связи с воркером при операции '" ∷ op ∷ "': " ∷ message rpc e ∷ [])) e
  ]

  unfoldable pub read_reply : Place → String → Returned F → Result F
  unfolding grpc_failure
  read_reply p op (res, some e) = err (grpc_failure p op e)
  read_reply p op (none, none) =
      err (new (sprint ("неожиданный пустой ответ от воркера для операции '" ∷ op ∷ "'" ∷ [])))
  read_reply p op (some res, none) =
      if not (str_eq res.error_message "") then err (new res.error_message) else ok res.result

  abbrev pub request : Place → String → F → F → CalculateOperationRequest F
  request p op a b = record {
    operation_id = w.operation_id p;
    operation_symbol = op;
    operand_a = a;
    operand_b = b;
  }

  unfoldable pub call_worker : Place → String → F → F → Result F
  unfolding read_reply
  call_worker p op a b = read_reply p op (w.reply p (request p op a b))

  unfoldable pub evaluate_unary : Place → String → Result F → Result F
  unfolding call_worker message
  evaluate_unary p op (err e) = err (
      wrap
        (sprint
          ("ошибка вычисления операнда для унарной операции '" ∷ op ∷ "': " ∷ message rpc e ∷ []))
        e)
  evaluate_unary p op (ok a) =
      if str_eq op "-"
      then call_worker p "neg" a fl.zero
      else err (
          wrap (sprint (text unsupported_node_type ∷ ": унарный оператор '" ∷ op ∷ "'" ∷ []))
            (sentinel unsupported_node_type))

  unfoldable pub with_operands : Place → String → Joined F → Result F
  unfolding call_worker
  with_operands p op (values a b) = call_worker p op a b
  with_operands p op (failed e) = err e

  unfoldable pub evaluate_binary : Place → String → Result F → Result F → Result F
  unfolding with_operands
  evaluate_binary p op x y = with_operands p op (joined rpc (w.right_first p) op x y)

  unfoldable pub evaluate_call : Node F → ℕ → Error
  evaluate_call (identifier name) n =
      wrap
        (sprint (
          text unsupported_node_type
          ∷ ": вызов функции '"
          ∷ name
          ∷ "("
          ∷ decimal n
          ∷ " арг.)' пока не реализован"
          ∷ []))
        (sentinel unsupported_node_type)
  evaluate_call callee n =
      wrap
        (sprint (
          text unsupported_node_type
          ∷ ": неподдерживаемый тип вызываемого объекта в CallNode ("
          ∷ type_name callee
          ∷ ")"
          ∷ []))
        (sentinel unsupported_node_type)

  unsupported : String → Error
  unsupported t =
      wrap (sprint (text unsupported_node_type ∷ ": " ∷ t ∷ [])) (sentinel unsupported_node_type)

  unfoldable pub evaluate : Place → Node F → Result F
  unfolding unsupported checked evaluate_unary evaluate_binary evaluate_call
  evaluate p (integer n) = checked rpc (w.ctx_err p) (ok (fl.of_int n))
  evaluate p (float v) = checked rpc (w.ctx_err p) (ok v)
  evaluate p (unary op x) = checked rpc (w.ctx_err p) (evaluate_unary p op (evaluate (false ∷ p) x))
  evaluate p (binary op l r) =
      checked rpc (w.ctx_err p)
        (evaluate_binary p (op_symbol op) (evaluate (false ∷ p) l) (evaluate (true ∷ p) r))
  evaluate p (call callee n) = checked rpc (w.ctx_err p) (err (evaluate_call callee n))
  evaluate p (identifier name) = checked rpc (w.ctx_err p) (err (unsupported "*ast.IdentifierNode"))
  evaluate p (listed k) = checked rpc (w.ctx_err p) (err (unsupported (kind_name k)))
  evaluate p (other name) = checked rpc (w.ctx_err p) (
      err (
        wrap (sprint (text unsupported_node_type ∷ ": неизвестный тип " ∷ name ∷ []))
          (sentinel unsupported_node_type)))
