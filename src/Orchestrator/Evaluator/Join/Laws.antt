-- ===== src/Orchestrator/Evaluator/Join/Laws.antt =====
-- Every complete run of a binary node's goroutines ends as `joined` says for the order of the two
-- sends.
use ya_lyceum_go_project_fin.Prelude.{
  ℕ, ◌+◌, ◌-◌, String, ◌≡◌, ◌↔◌, refl, sym, ap, ◌∙◌, subst, Bool, true, false, List, [], ◌∷◌, ◌++◌,
  arith, if◌then◌else◌,
}
use ya_lyceum_go_project_fin.Errors.{Error, Result, ok, err}
use ya_lyceum_go_project_fin.Grpc.{Rpc}
use ya_lyceum_go_project_fin.Orchestrator.Evaluator.{Joined, joined, left_failure, right_failure}
use ya_lyceum_go_project_fin.Orchestrator.Evaluator.Join.{
  Routine, evaluating, sent, finished, Caller, waiting, closed, received, JoinState, start,
  send_left, send_right, receive, JoinStep, left_sends, right_sends, left_done, right_done, closes,
  receives, Reaches, at_start, after,
}

-- What a goroutine has put into its channel and into `errChan`.
abbrev pub sent_values : {F : Type 0} → Routine → Result F → List F
sent_values evaluating r = []
sent_values _ (ok a) = a ∷ []
sent_values _ (err e) = []

abbrev pub sent_errors : {F : Type 0} → (Error → Error) → Routine → Result F → List Error
sent_errors f evaluating r = []
sent_errors f _ (ok a) = []
sent_errors f _ (err e) = f e ∷ []

abbrev pub busy : Routine → ℕ
busy finished = 0
busy _ = 1

module _ {F : Type 0} (rpc : Rpc) (zero : F) (op : String) (x y : Result F) where
  abbrev pub CallerHolds : Bool → Routine → Routine → Caller F → Type 0
  CallerHolds right_first l r waiting = Unit
  CallerHolds right_first l r closed = (l ≡ finished) × (r ≡ finished)
  CallerHolds right_first l r (received j) =
      (l ≡ finished) × (r ≡ finished) × (j ≡ joined rpc right_first op x y)

  pub record IsConsistent (right_first : Bool) (s : JoinState F) : Type 0 where
    pub left_values : s.left_chan ≡ sent_values s.left x
    pub right_values : s.right_chan ≡ sent_values s.right y
    pub errors : s.err_chan ≡ (
        if right_first
        then sent_errors (right_failure rpc op) s.right y
          ++ sent_errors (left_failure rpc op) s.left x
        else sent_errors (left_failure rpc op) s.left x
          ++ sent_errors (right_failure rpc op) s.right y)
    pub pending : s.wait_group ≡ busy s.left + busy s.right
    pub caller : CallerHolds right_first s.left s.right s.caller

  send_left-IsConsistent :
      (right_first : Bool) (s : JoinState F)
      → s.left ≡ evaluating
      → IsConsistent right_first s
      → IsConsistent true (send_left rpc op x s)
  send_left-IsConsistent right_first s e c = ground arith

  send_right-IsConsistent :
      (right_first : Bool) (s : JoinState F)
      → s.right ≡ evaluating
      → IsConsistent right_first s
      → IsConsistent false (send_right rpc op y s)
  send_right-IsConsistent right_first s e c = ground arith

  left_done-IsConsistent :
      (right_first : Bool) (s : JoinState F)
      → s.left ≡ sent
      → IsConsistent right_first s
      → IsConsistent right_first (record s { left = finished; wait_group = s.wait_group - 1 })
  left_done-IsConsistent right_first s e c = ground arith

  right_done-IsConsistent :
      (right_first : Bool) (s : JoinState F)
      → s.right ≡ sent
      → IsConsistent right_first s
      → IsConsistent right_first (record s { right = finished; wait_group = s.wait_group - 1 })
  right_done-IsConsistent right_first s e c = ground arith

  closes-IsConsistent :
      (right_first : Bool) (s : JoinState F)
      → s.wait_group ≡ 0
      → IsConsistent right_first s
      → IsConsistent right_first (record s { caller = closed })
  closes-IsConsistent right_first s e c = ground arith

  receives-IsConsistent :
      (right_first : Bool) (s : JoinState F)
      → s.caller ≡ closed
      → IsConsistent right_first s
      → IsConsistent right_first (record s { caller = received (receive zero s) })
  receives-IsConsistent right_first s e c = ground arith

  JoinStep-IsConsistent :
      (right_first : Bool) {s t : JoinState F}
      → JoinStep rpc zero op x y s t
      → IsConsistent right_first s
      → (rf : Bool) × IsConsistent rf t
  JoinStep-IsConsistent rf {s = s} (left_sends e room p) c =
      (true, rw p (send_left-IsConsistent rf s e c))
  JoinStep-IsConsistent rf {s = s} (right_sends e room p) c =
      (false, rw p (send_right-IsConsistent rf s e c))
  JoinStep-IsConsistent rf {s = s} (left_done e p) c = (rf, rw p (left_done-IsConsistent rf s e c))
  JoinStep-IsConsistent rf {s = s} (right_done e p) c =
      (rf, rw p (right_done-IsConsistent rf s e c))
  JoinStep-IsConsistent rf {s = s} (closes _ e p) c = (rf, rw p (closes-IsConsistent rf s e c))
  JoinStep-IsConsistent rf {s = s} (receives e p) c = (rf, rw p (receives-IsConsistent rf s e c))

  pub Reaches-IsConsistent :
      {s : JoinState F} → Reaches rpc zero op x y s → (rf : Bool) × IsConsistent rf s
  Reaches-IsConsistent at_start = (
    false,
    record { left_values = refl; right_values = refl; errors = refl; pending = refl; caller = tt },
  )
  Reaches-IsConsistent (after run step) =
      let (rf, c) = Reaches-IsConsistent run in JoinStep-IsConsistent rf step c

  Reaches-joined :
      {s : JoinState F} (j : Joined F)
      → Reaches rpc zero op x y s
      → s.caller ≡ received j
      → (rf : Bool) × (j ≡ joined rpc rf op x y)
  Reaches-joined {s = s} j run e =
      let (rf, c) = Reaches-IsConsistent run in
      (rf, (subst (CallerHolds rf s.left s.right) e c.caller).2)

  abbrev both_sent : Bool → JoinState F
  both_sent true = send_left rpc op x (send_right rpc op y start)
  both_sent false = send_right rpc op y (send_left rpc op x start)

  both_sent-Reaches : (rf : Bool) → Reaches rpc zero op x y (both_sent rf)
  both_sent-Reaches true =
      after (after at_start (right_sends refl (ground arith) refl))
        (left_sends (ground arith) (ground arith) refl)
  both_sent-Reaches false =
      after (after at_start (left_sends refl (ground arith) refl))
        (right_sends (ground arith) (ground arith) refl)

  sent-Reaches-received :
      (s : JoinState F)
      → Reaches rpc zero op x y s
      → s.left ≡ sent
      → s.right ≡ sent
      → s.wait_group ≡ 2
      → s.caller ≡ waiting
      → (t : JoinState F) × Reaches rpc zero op x y t × (t.caller ≡ received (receive zero s))
  sent-Reaches-received s run l r g c =
      let s1 : JoinState F = record s { left = finished; wait_group = s.wait_group - 1 } in
      let s2 : JoinState F = record s1 { right = finished; wait_group = s1.wait_group - 1 } in
      let s3 : JoinState F = record s2 { caller = closed } in
      let s4 : JoinState F = record s3 { caller = received (receive zero s3) } in
      (
        s4,
        after
            (after (after (after run (left_done l refl)) (right_done r refl))
              (closes c (omega arith) refl))
            (receives refl refl),
        refl,
      )

  received-Reaches :
      (rf : Bool)
      → (t : JoinState F) × Reaches rpc zero op x y t × (t.caller ≡ received (joined rpc rf op x y))
  received-Reaches rf =
      let (t, run, e) =
        sent-Reaches-received (both_sent rf) (both_sent-Reaches rf) (ground arith) (ground arith)
          (ground arith) (ground arith) in
      (t, run, e ∙ ap received (ground arith))

  -- The ends of the runs are those that `joined` gives for the two orders of the sends, each of them
  -- and no other: both values if neither operand failed, and else an error of one that failed.
  pub received_iff :
      (j : Joined F)
      → ((s : JoinState F) × Reaches rpc zero op x y s × (s.caller ≡ received j))
        ↔ ((rf : Bool) × (j ≡ joined rpc rf op x y))
  received_iff j = (
    λ (s, run, e). Reaches-joined j run e,
    λ (rf, e).
        subst (λ k. (s : JoinState F) × Reaches rpc zero op x y s × (s.caller ≡ received k)) (sym e)
          (received-Reaches rf),
  )
