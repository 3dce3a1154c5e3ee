-- ===== src/Api.antt =====
-- ui/web/src/types/api.ts: the records that the stores keep. An optional field is an `Option`;
-- counts are native numbers; time stamps and cursors are texts.
use temporal_loom.Prelude.{ℕ, Bool, List, Option, Text, Dict}
use temporal_loom.Json.{Json}
use temporal_loom.Theme.Types.{Theme}

pub record Workspace : Type 0 where
  pub id : Text
  pub slug : Text
  pub name : Text
  pub description : Text
  pub created_by : Option Text
  pub created_at : Text
  pub updated_at : Text
  pub theme : Option Theme

pub record SessionInfo : Type 0 where
  pub key : Text
  pub title : Option Text
  pub created_by : Option Text
  pub message_count : ℕ
  pub created_at : Text
  pub updated_at : Text

pub record MessageToolCall : Type 0 where
  pub id : Text
  pub name : Text
  pub arguments : Dict Json

pub data Role : Type 0 where
  user assistant system tool : Role

pub record Message : Type 0 where
  pub role : Role
  pub content : Text
  pub tool_calls : Option (List MessageToolCall)
  pub tool_call_id : Option Text

pub record Routine : Type 0 where
  pub id : Text
  pub workspace_id : Text
  pub name : Text
  pub prompt : Text
  pub model : Option Text
  pub session_prefix : Text
  pub enabled : Bool
  pub schedule_cron : Option Text
  pub schedule_tz : Text
  pub temporal_schedule_id : Option Text
  pub has_fire_token : Bool
  pub created_by : Option Text
  pub created_at : Text
  pub updated_at : Text

pub data TriggerType : Type 0 where
  schedule api manual : TriggerType

pub data RunStatus : Type 0 where
  running success failed : RunStatus

pub record RoutineRun : Type 0 where
  pub id : Text
  pub routine_id : Text
  pub workspace_id : Text
  pub trigger_type : TriggerType
  pub status : RunStatus
  pub session_key : Option Text
  pub workflow_id : Option Text
  pub temporal_run_id : Option Text
  pub input_text : Option Text
  pub output_preview : Option Text
  pub error : Option Text
  pub input_tokens : ℕ
  pub output_tokens : ℕ
  pub iterations : ℕ
  pub started_at : Text
  pub finished_at : Option Text
  pub duration_ms : ℕ

pub record CreateRoutineResp : Type 0 where
  pub routine : Routine
  pub fire_token : Option Text
