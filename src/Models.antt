-- ===== src/Models.antt =====
-- backend/models.py: the rows of the tables. A timestamp is a number of microseconds since
-- the year 1.
use python_fastapi_poc.Prelude.{ℕ, String, Bool, Option, List}
use python_fastapi_poc.Domain.{
  ScheduleType, ActionType, ExecutionStatus, ExecutionTrigger, ActionExecutionStatus, JsonObject,
}

pub record Routine : Type 0 where
  pub id : ℕ
  pub name : String
  pub description : Option String
  pub schedule_type : ScheduleType
  pub schedule_config : Option JsonObject
  pub is_active : Bool
  pub created_at : ℕ

pub record Action : Type 0 where
  pub id : ℕ
  pub routine_id : ℕ
  pub position : ℕ
  pub action_type : ActionType
  pub config : JsonObject

pub record RoutineExecution : Type 0 where
  pub id : ℕ
  pub routine_id : ℕ
  pub status : ExecutionStatus
  pub triggered_by : ExecutionTrigger
  pub queued_at : ℕ
  pub scheduled_for : ℕ
  pub started_at : Option ℕ
  pub completed_at : Option ℕ

pub record ActionExecution : Type 0 where
  pub id : ℕ
  pub execution_id : ℕ
  pub action_id : ℕ
  pub position : ℕ
  pub action_type : ActionType
  pub config : JsonObject
  pub status : ActionExecutionStatus
  pub started_at : Option ℕ
  pub completed_at : Option ℕ

pub record User : Type 0 where
  pub id : ℕ
  pub google_id : String
  pub email : String
  pub name : String
  pub picture : Option String
  pub created_at : ℕ

-- The tables.
pub record Db : Type 0 where
  pub routines : List Routine
  pub actions : List Action
  pub executions : List RoutineExecution
  pub action_executions : List ActionExecution
  pub users : List User
