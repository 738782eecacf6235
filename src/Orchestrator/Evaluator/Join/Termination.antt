-- ===== src/Orchestrator/Evaluator/Join/Termination.antt =====
-- No run of a binary node's goroutines blocks for ever, and every run is short.
use ya_lyceum_go_project_fin.Prelude.{
  ℕ, ◌+◌, ◌-◌, String, ◌≡◌, ◌≤◌, refl, subst, ◌⊎◌, inl, inr, Bool, arith,
}
use ya_lyceum_go_project_fin.Errors.{Result}
use ya_lyceum_go_project_fin.Grpc.{Rpc}
use ya_lyceum_go_project_fin.Orchestrator.Evaluator.{Joined}
use ya_lyceum_go_project_fin.Orchestrator.Evaluator.Join.{
  Routine, evaluating, sent, finished, Caller, waiting, closed, received, JoinState, send_left,
  send_right, receive, JoinStep, left_sends, right_sends, left_done, right_done, closes, receives,
  Reaches, at_start, after,
}
use ya_lyceum_go_project_fin.Orchestrator.Evaluator.Join.Laws.{
  CallerHolds, IsConsistent, Reaches-IsConsistent,
}

module _ {F : Type 0} (rpc : Rpc) (zero : F) (op : String) (x y : Result F) where
  abbrev to_do : Routine → ℕ
  to_do evaluating = 2
  to_do sent = 1
  to_do finished = 0

  abbrev caller_to_do : Caller F → ℕ
  caller_to_do waiting = 2
  caller_to_do closed = 1
  caller_to_do (received j) = 0

  abbrev steps_left : JoinState F → ℕ
  steps_left s = to_do s.left + to_do s.right + caller_to_do s.caller

  JoinStep-steps_left :
      {s t : JoinState F} → JoinStep rpc zero op x y s t → steps_left t + 1 ≡ steps_left s
  JoinStep-steps_left (left_sends e room p) = ground arith
  JoinStep-steps_left (right_sends e room p) = ground arith
  JoinStep-steps_left (left_done e p) = ground arith
  JoinStep-steps_left (right_done e p) = ground arith
  JoinStep-steps_left (closes c e p) = ground arith
  JoinStep-steps_left (receives e p) = ground arith

  abbrev pub run_length : {s : JoinState F} → Reaches rpc zero op x y s → ℕ
  run_length at_start = 0
  run_length (after run step) = run_length run + 1

  run_length-steps_left :
      {s : JoinState F} (run : Reaches rpc zero op x y s) → run_length run + steps_left s ≡ 6
  run_length-steps_left at_start = refl
  run_length-steps_left (after run step) =
      omega (arith, run_length-steps_left run, JoinStep-steps_left step)

  received-six :
      {s : JoinState F} (run : Reaches rpc zero op x y s) (j : Joined F)
      → s.caller ≡ received j
      → run_length run ≡ 6
  received-six {s = s} run j e =
      let (rf, c) = Reaches-IsConsistent rpc zero op x y run in
      let ends : CallerHolds rpc zero op x y rf s.left s.right (received j) =
        subst (CallerHolds rpc zero op x y rf s.left s.right) e c.caller in
      ground (arith, run_length-steps_left run)

  progress :
      (rf : Bool) (s : JoinState F) (l r : Routine) (k : Caller F)
      → IsConsistent rpc zero op x y rf s
      → s.left ≡ l
      → s.right ≡ r
      → s.caller ≡ k
      → ((j : Joined F) × (s.caller ≡ received j))
        ⊎ ((t : JoinState F) × JoinStep rpc zero op x y s t)
  progress rf s evaluating r k c el er ek =
      inr (send_left rpc op x s, left_sends el (ground arith) refl)
  progress rf s sent r k c el er ek =
      inr (record s { left = finished; wait_group = s.wait_group - 1 }, left_done el refl)
  progress rf s finished evaluating k c el er ek =
      inr (send_right rpc op y s, right_sends er (ground arith) refl)
  progress rf s finished sent k c el er ek =
      inr (record s { right = finished; wait_group = s.wait_group - 1 }, right_done er refl)
  progress rf s finished finished waiting c el er ek =
      inr (record s { caller = closed }, closes ek (ground arith) refl)
  progress rf s finished finished closed c el er ek =
      inr (record s { caller = received (receive zero s) }, receives ek refl)
  progress rf s finished finished (received j) c el er ek = inl (j, ek)

  -- No run blocks: a state that is reached has received its operands or has a next step, so no send
  -- waits on a full channel and `wg.Wait()` is left; and every run that has received took six steps.
  pub join_terminates :
      {s : JoinState F} (run : Reaches rpc zero op x y s)
      → (((j : Joined F) × (s.caller ≡ received j))
          ⊎ ((t : JoinState F) × JoinStep rpc zero op x y s t))
        × (run_length run ≤ 6)
        × ((j : Joined F) → s.caller ≡ received j → run_length run ≡ 6)
  join_terminates {s = s} run =
      let (rf, c) = Reaches-IsConsistent rpc zero op x y run in
      (
        progress rf s s.left s.right s.caller c refl refl refl,
        omega (arith, run_length-steps_left run),
        λ j e. received-six run j e,
      )
