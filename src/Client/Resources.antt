-- ===== src/Client/Resources.antt =====
-- The calls of ui/web/src/lib/api.ts on the resources of a workspace, and all calls by the object that
-- holds them.
use temporal_loom.Prelude.{ℕ, Bool, [], ◌∷◌, Option, Text, text, Dict}
use temporal_loom.Prelude.Decimal.{show}
use temporal_loom.Json.{Json, bool, object}
use temporal_loom.Client.Calls.{
  get, post, put, patch, delete, fixed, encoded, raw, scoped, Call, bare, with_body, reset_query,
  file_params, text_field, AuthCall, auth_call, WorkspaceCall, workspaces_call, SessionCall,
  sessions_call, AgentCall, agent_call, OpenaiCall, openai_call,
}

pub data SkillCall : Type 0 where
  skills_list : SkillCall
  skills_get : (id : Text) → SkillCall
  skills_create : (fields : Dict Json) → SkillCall
  skills_update : (id : Text) (fields : Dict Json) → SkillCall
  skills_delete : (id : Text) → SkillCall
  skills_generate_stream : (fields : Dict Json) → SkillCall

unfoldable pub skills_call : SkillCall → Call
skills_call skills_list = bare get (scoped (fixed "/skills" ∷ []))
skills_call (skills_get id) = bare get (scoped (fixed "/skills/" ∷ raw id ∷ []))
skills_call (skills_create fields) = with_body post (scoped (fixed "/skills" ∷ [])) (object fields)
skills_call (skills_update id fields) =
    with_body put (scoped (fixed "/skills/" ∷ raw id ∷ [])) (object fields)
skills_call (skills_delete id) = bare delete (scoped (fixed "/skills/" ∷ raw id ∷ []))
skills_call (skills_generate_stream fields) =
    with_body post (scoped (fixed "/skills/generate" ∷ [])) (object fields)

pub data ContextFileCall : Type 0 where
  context_files_list : ContextFileCall
  context_files_create : (fields : Dict Json) → ContextFileCall
  context_files_upsert : (fields : Dict Json) → ContextFileCall
  context_files_delete : (scope path user_id : Text) → ContextFileCall

unfoldable pub context_files_call : (search_params : Dict Text → Text) → ContextFileCall → Call
context_files_call search_params context_files_list =
    bare get (scoped (fixed "/context-files" ∷ []))
context_files_call search_params (context_files_create fields) =
    with_body post (scoped (fixed "/context-files" ∷ [])) (object fields)
context_files_call search_params (context_files_upsert fields) =
    with_body put (scoped (fixed "/context-files" ∷ [])) (object fields)
context_files_call search_params (context_files_delete scope path user_id) =
    bare delete
      (scoped (fixed "/context-files?" ∷ raw (search_params (file_params scope path user_id)) ∷ []))

pub data RbacCall : Type 0 where
  rbac_me : RbacCall
  rbac_resources : RbacCall
  rbac_list : RbacCall
  rbac_create : (fields : Dict Json) → RbacCall
  rbac_update : (name : Text) (fields : Dict Json) → RbacCall
  rbac_delete : (name : Text) → RbacCall

unfoldable pub rbac_call : RbacCall → Call
rbac_call rbac_me = bare get (scoped (fixed "/rbac/me" ∷ []))
rbac_call rbac_resources = bare get (scoped (fixed "/rbac/resources" ∷ []))
rbac_call rbac_list = bare get (scoped (fixed "/rbac/roles" ∷ []))
rbac_call (rbac_create fields) = with_body post (scoped (fixed "/rbac/roles" ∷ [])) (object fields)
rbac_call (rbac_update name fields) =
    with_body put (scoped (fixed "/rbac/roles/" ∷ encoded name ∷ [])) (object fields)
rbac_call (rbac_delete name) = bare delete (scoped (fixed "/rbac/roles/" ∷ encoded name ∷ []))

pub data McpServerCall : Type 0 where
  mcp_servers_list : McpServerCall
  mcp_servers_get : (name : Text) → McpServerCall
  mcp_servers_create : (fields : Dict Json) → McpServerCall
  mcp_servers_update : (name : Text) (fields : Dict Json) → McpServerCall
  mcp_servers_refresh : (name : Text) → McpServerCall
  mcp_servers_set_function_enabled : (name fn : Text) (enabled : Bool) → McpServerCall
  mcp_servers_start_oauth : (name : Text) → McpServerCall
  mcp_servers_disconnect_oauth : (name : Text) → McpServerCall
  mcp_servers_delete : (name : Text) → McpServerCall

unfoldable pub mcp_servers_call : McpServerCall → Call
mcp_servers_call mcp_servers_list = bare get (scoped (fixed "/mcp/servers" ∷ []))
mcp_servers_call (mcp_servers_get name) =
    bare get (scoped (fixed "/mcp/servers/" ∷ encoded name ∷ []))
mcp_servers_call (mcp_servers_create fields) =
    with_body post (scoped (fixed "/mcp/servers" ∷ [])) (object fields)
mcp_servers_call (mcp_servers_update name fields) =
    with_body put (scoped (fixed "/mcp/servers/" ∷ encoded name ∷ [])) (object fields)
mcp_servers_call (mcp_servers_refresh name) =
    bare post (scoped (fixed "/mcp/servers/" ∷ encoded name ∷ fixed "/refresh" ∷ []))
mcp_servers_call (mcp_servers_set_function_enabled name fn enabled) =
    with_body patch
      (scoped (fixed "/mcp/servers/" ∷ encoded name ∷ fixed "/functions/" ∷ encoded fn ∷ []))
      (object ((text "enabled", bool enabled) ∷ []))
mcp_servers_call (mcp_servers_start_oauth name) =
    with_body post (scoped (fixed "/mcp/servers/" ∷ encoded name ∷ fixed "/oauth/start" ∷ []))
      (object [])
mcp_servers_call (mcp_servers_disconnect_oauth name) =
    bare post (scoped (fixed "/mcp/servers/" ∷ encoded name ∷ fixed "/oauth/disconnect" ∷ []))
mcp_servers_call (mcp_servers_delete name) =
    bare delete (scoped (fixed "/mcp/servers/" ∷ encoded name ∷ []))

pub data KnowledgeCall : Type 0 where
  knowledge_list : KnowledgeCall
  knowledge_get : (id : Text) → KnowledgeCall
  knowledge_create : (fields : Dict Json) → KnowledgeCall
  knowledge_update : (id : Text) (fields : Dict Json) → KnowledgeCall
  knowledge_delete : (id : Text) → KnowledgeCall
  knowledge_sync : (id : Text) (reset : Bool) → KnowledgeCall

unfoldable pub knowledge_call : KnowledgeCall → Call
knowledge_call knowledge_list = bare get (scoped (fixed "/knowledge" ∷ []))
knowledge_call (knowledge_get id) = bare get (scoped (fixed "/knowledge/" ∷ raw id ∷ []))
knowledge_call (knowledge_create fields) =
    with_body post (scoped (fixed "/knowledge" ∷ [])) (object fields)
knowledge_call (knowledge_update id fields) =
    with_body put (scoped (fixed "/knowledge/" ∷ raw id ∷ [])) (object fields)
knowledge_call (knowledge_delete id) = bare delete (scoped (fixed "/knowledge/" ∷ raw id ∷ []))
knowledge_call (knowledge_sync id reset) =
    bare post (scoped (fixed "/knowledge/" ∷ raw id ∷ fixed "/sync" ∷ raw (reset_query reset) ∷ []))

pub data RoutineCall : Type 0 where
  routines_list : RoutineCall
  routines_get : (id : Text) → RoutineCall
  routines_create : (fields : Dict Json) → RoutineCall
  routines_update : (id : Text) (fields : Dict Json) → RoutineCall
  routines_delete : (id : Text) → RoutineCall
  routines_list_runs : (id : Text) (limit : ℕ) → RoutineCall
  routines_fire : (id : Text) (prompt : Option Text) → RoutineCall
  routines_rotate_token : (id : Text) → RoutineCall
  routines_revoke_token : (id : Text) → RoutineCall

unfoldable pub routines_call : RoutineCall → Call
unfolding show
routines_call routines_list = bare get (scoped (fixed "/routines" ∷ []))
routines_call (routines_get id) = bare get (scoped (fixed "/routines/" ∷ raw id ∷ []))
routines_call (routines_create fields) =
    with_body post (scoped (fixed "/routines" ∷ [])) (object fields)
routines_call (routines_update id fields) =
    with_body put (scoped (fixed "/routines/" ∷ raw id ∷ [])) (object fields)
routines_call (routines_delete id) = bare delete (scoped (fixed "/routines/" ∷ raw id ∷ []))
routines_call (routines_list_runs id limit) =
    bare get (scoped (fixed "/routines/" ∷ raw id ∷ fixed "/runs?limit=" ∷ raw (show limit) ∷ []))
routines_call (routines_fire id prompt) =
    with_body post (scoped (fixed "/routines/" ∷ raw id ∷ fixed "/fire" ∷ []))
      (object (text_field prompt))
routines_call (routines_rotate_token id) =
    bare post (scoped (fixed "/routines/" ∷ raw id ∷ fixed "/rotate-token" ∷ []))
routines_call (routines_revoke_token id) =
    bare delete (scoped (fixed "/routines/" ∷ raw id ∷ fixed "/revoke-token" ∷ []))

-- The calls by the object of the client that holds them.
pub data ClientCall : Type 0 where
  in_auth : AuthCall → ClientCall
  in_workspaces : WorkspaceCall → ClientCall
  in_sessions : SessionCall → ClientCall
  in_agent : AgentCall → ClientCall
  in_openai : OpenaiCall → ClientCall
  in_skills : SkillCall → ClientCall
  in_context_files : ContextFileCall → ClientCall
  in_rbac : RbacCall → ClientCall
  in_mcp_servers : McpServerCall → ClientCall
  in_knowledge : KnowledgeCall → ClientCall
  in_routines : RoutineCall → ClientCall

unfoldable pub client_call : (search_params : Dict Text → Text) → ClientCall → Call
unfolding auth_call workspaces_call sessions_call agent_call openai_call skills_call
    context_files_call rbac_call mcp_servers_call knowledge_call routines_call
client_call search_params (in_auth k) = auth_call k
client_call search_params (in_workspaces k) = workspaces_call k
client_call search_params (in_sessions k) = sessions_call k
client_call search_params (in_agent k) = agent_call k
client_call search_params (in_openai k) = openai_call k
client_call search_params (in_skills k) = skills_call k
client_call search_params (in_context_files k) = context_files_call search_params k
client_call search_params (in_rbac k) = rbac_call k
client_call search_params (in_mcp_servers k) = mcp_servers_call k
client_call search_params (in_knowledge k) = knowledge_call k
client_call search_params (in_routines k) = routines_call k
