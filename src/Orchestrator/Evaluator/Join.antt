-- ===== src/Orchestrator/Evaluator/Join.antt =====
-- The goroutines of a binary node in internal/orchestrator/service/evaluator.go: each sends its
-- operand's value or error to a buffered channel and then calls `wg.Done()`; the caller waits for
-- both, closes the channels and receives. Each step is one goroutine's next action.
pub mod Laws
pub mod Termination
use ya_lyceum_go_project_fin.Prelude.{
  ℕ, ◌+◌, ◌-◌, ◌<◌, String, ◌≡◌, Bool, true, false, Option, none, some, List, [], ◌∷◌, ◌++◌,
}
use ya_lyceum_go_project_fin.Errors.{Error, Result, ok, err}
use ya_lyceum_go_project_fin.Grpc.{Rpc}
use ya_lyceum_go_project_fin.Orchestrator.Evaluator.{
  Joined, values, failed, left_failure, right_failure,
}

-- Where a goroutine of an operand stands: before its send, before `wg.Done()`, after it.
pub data Routine : Type 0 where
  evaluating sent finished : Routine

-- Where the caller stands: at `wg.Wait()`, after the three `close`s, after the receives.
pub data Caller (F : Type 0) : Type 0 where
  waiting closed : Caller F
  received : Joined F → Caller F

pub record JoinState (F : Type 0) : Type 0 where
  pub left : Routine
  pub right : Routine
  pub left_chan : List F
  pub right_chan : List F
  pub err_chan : List Error
  pub wait_group : ℕ
  pub caller : Caller F

abbrev pub start : {F : Type 0} → JoinState F
start = record {
  left = evaluating;
  right = evaluating;
  left_chan = [];
  right_chan = [];
  err_chan = [];
  wait_group = 2;
  caller = waiting;
}

abbrev pub length : {A : Type 0} → List A → ℕ
length [] = 0
length (x ∷ xs) = length xs + 1

-- A send on a buffered channel goes through only while the buffer has room.
abbrev pub send_left : {F : Type 0} → Rpc → String → Result F → JoinState F → JoinState F
send_left rpc op (ok a) s = record s { left = sent; left_chan = s.left_chan ++ a ∷ [] }
send_left rpc op (err e) s = record s {
  left = sent;
  err_chan = s.err_chan ++ left_failure rpc op e ∷ [];
}

abbrev pub send_right : {F : Type 0} → Rpc → String → Result F → JoinState F → JoinState F
send_right rpc op (ok b) s = record s { right = sent; right_chan = s.right_chan ++ b ∷ [] }
send_right rpc op (err f) s = record s {
  right = sent;
  err_chan = s.err_chan ++ right_failure rpc op f ∷ [];
}

abbrev pub HasRoomLeft : {F : Type 0} → Result F → JoinState F → Type 0
HasRoomLeft (ok a) s = length s.left_chan < 1
HasRoomLeft (err e) s = length s.err_chan < 2

abbrev pub HasRoomRight : {F : Type 0} → Result F → JoinState F → Type 0
HasRoomRight (ok b) s = length s.right_chan < 1
HasRoomRight (err f) s = length s.err_chan < 2

-- The value received from a closed channel: its first element, or the zero value.
abbrev pub receive_value : {F : Type 0} → F → List F → F
receive_value zero [] = zero
receive_value zero (a ∷ _) = a

-- The loop over `errChan`, which receives nil from an empty closed channel, and the two receives
-- after it.
abbrev pub receive : {F : Type 0} → F → JoinState F → Joined F
receive zero s = elim s.err_chan [
  | [] ↦ values (receive_value zero s.left_chan) (receive_value zero s.right_chan)
  | e ∷ _ ↦ failed e
]

module _ {F : Type 0} (rpc : Rpc) (zero : F) (op : String) (x y : Result F) where
  pub data JoinStep (s t : JoinState F) : Type 0 where
    left_sends : s.left ≡ evaluating → HasRoomLeft x s → t ≡ send_left rpc op x s → JoinStep s t
    right_sends : s.right ≡ evaluating → HasRoomRight y s → t ≡ send_right rpc op y s → JoinStep s t
    left_done :
        s.left ≡ sent
        → t ≡ record s { left = finished; wait_group = s.wait_group - 1 }
        → JoinStep s t
    right_done :
        s.right ≡ sent
        → t ≡ record s { right = finished; wait_group = s.wait_group - 1 }
        → JoinStep s t
    closes : s.caller ≡ waiting → s.wait_group ≡ 0 → t ≡ record s { caller = closed } → JoinStep s t
    receives :
        s.caller ≡ closed → t ≡ record s { caller = received (receive zero s) } → JoinStep s t

  pub data Reaches : JoinState F → Type 0 where
    at_start : Reaches start
    after : {s t : JoinState F} → Reaches s → JoinStep s t → Reaches t
