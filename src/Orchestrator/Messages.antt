-- ===== src/Orchestrator/Messages.antt =====
-- The messages of proto/gen/orchestrator/orchestrator.pb.go.
use ya_lyceum_go_project_fin.Prelude.{String, List}

pub record ExpressionRequest : Type 0 where
  pub user_id : String
  pub expression : String

pub record ExpressionResponse : Type 0 where
  pub task_id : String

pub record TaskDetailsRequest : Type 0 where
  pub user_id : String
  pub task_id : String

pub record TaskDetailsResponse (F : Type 0) : Type 0 where
  pub id : String
  pub expression : String
  pub status : String
  pub result : F
  pub error_message : String
  pub created_at : String
  pub updated_at : String

pub record UserTasksRequest : Type 0 where
  pub user_id : String

pub record TaskBrief : Type 0 where
  pub id : String
  pub expression : String
  pub status : String
  pub created_at : String

pub record UserTasksResponse : Type 0 where
  pub tasks : List TaskBrief
