-- ===== src/Client/Calls.antt =====
-- The calls of ui/web/src/lib/api.ts: their methods, their paths below the base, and what
-- JSON.stringify prints of them.
use temporal_loom.Prelude.{
  Bool, true, false, List, [], ◌∷◌, ◌++◌, map, Option, none, some, String, Text, text, Dict, insert,
  is_empty, if◌then◌else◌,
}
use temporal_loom.Json.{Json, str, bool, array, object}

pub data Method : Type 0 where
  get post put patch delete : Method

-- A part of a path: as it is written, through encodeURIComponent, or put in as it is.
pub data Part : Type 0 where
  fixed : String → Part
  encoded raw : Text → Part

-- The path given to `request`: as it is, or through `wsPath`.
pub data CallPath : Type 0 where
  plain scoped : List Part → CallPath

pub record Call : Type 0 where
  pub method : Method
  pub path : CallPath
  pub body : Option Json

abbrev pub bare : Method → CallPath → Call
bare method path = record { method = method; path = path; body = none }

abbrev pub with_body : Method → CallPath → Json → Call
with_body method path body = record { method = method; path = path; body = some body }

-- `?kind=…`, `?reset=true`, the parameters of a deletion, and a field that may be undefined.
abbrev pub query : Text → Text
query kind = if is_empty kind then [] else text "?kind=" ++ kind

abbrev pub reset_query : Bool → Text
reset_query reset = if reset then text "?reset=true" else []

abbrev pub file_params : (scope path user_id : Text) → Dict Text
file_params scope path user_id =
    (text "scope", scope)
    ∷ (text "path", path)
    ∷ (if is_empty user_id then [] else (text "user_id", user_id) ∷ [])

abbrev pub text_field : Option Text → Dict Json
text_field none = []
text_field (some t) = (text "text", str t) ∷ []

pub data AuthCall : Type 0 where
  auth_set_token : (token : Text) → AuthCall
  auth_logout : AuthCall
  sso_cas_login : (ticket service : Text) → AuthCall

unfoldable pub auth_call : AuthCall → Call
auth_call (auth_set_token token) =
    with_body post (plain (fixed "/set-token" ∷ [])) (object ((text "token", str token) ∷ []))
auth_call auth_logout = bare post (plain (fixed "/logout" ∷ []))
auth_call (sso_cas_login ticket service) =
    with_body post (plain (fixed "/sso/cas" ∷ []))
      (object ((text "ticket", str ticket) ∷ (text "service", str service) ∷ []))

pub data WorkspaceCall : Type 0 where
  workspaces_list : WorkspaceCall
  workspaces_get : (id : Text) → WorkspaceCall
  workspaces_create : (fields : Dict Json) → WorkspaceCall
  workspaces_update : (id : Text) (fields : Dict Json) → WorkspaceCall
  workspaces_delete : (id : Text) → WorkspaceCall
  workspaces_members : (id : Text) → WorkspaceCall
  workspaces_add_member : (id sub : Text) (roles : List Text) → WorkspaceCall
  workspaces_set_member_roles : (id sub : Text) (roles : List Text) → WorkspaceCall
  workspaces_remove_member : (id sub : Text) → WorkspaceCall

unfoldable pub workspaces_call : WorkspaceCall → Call
workspaces_call workspaces_list = bare get (plain (fixed "/workspaces" ∷ []))
workspaces_call (workspaces_get id) = bare get (plain (fixed "/workspaces/" ∷ encoded id ∷ []))
workspaces_call (workspaces_create fields) =
    with_body post (plain (fixed "/workspaces" ∷ [])) (object fields)
workspaces_call (workspaces_update id fields) =
    with_body put (plain (fixed "/workspaces/" ∷ encoded id ∷ [])) (object fields)
workspaces_call (workspaces_delete id) =
    bare delete (plain (fixed "/workspaces/" ∷ encoded id ∷ []))
workspaces_call (workspaces_members id) =
    bare get (plain (fixed "/workspaces/" ∷ encoded id ∷ fixed "/members" ∷ []))
workspaces_call (workspaces_add_member id sub roles) =
    with_body post (plain (fixed "/workspaces/" ∷ encoded id ∷ fixed "/members" ∷ []))
      (object ((text "sub", str sub) ∷ (text "roles", array (map str roles)) ∷ []))
workspaces_call (workspaces_set_member_roles id sub roles) =
    with_body put
      (plain
        (fixed "/workspaces/" ∷ encoded id ∷ fixed "/members/" ∷ encoded sub ∷ fixed "/roles" ∷ []))
      (object ((text "roles", array (map str roles)) ∷ []))
workspaces_call (workspaces_remove_member id sub) =
    bare delete (plain (fixed "/workspaces/" ∷ encoded id ∷ fixed "/members/" ∷ encoded sub ∷ []))

pub data SessionCall : Type 0 where
  sessions_list : (kind : Text) → SessionCall
  sessions_get : (key : Text) → SessionCall
  sessions_update : (key : Text) (fields : Dict Json) → SessionCall
  sessions_delete : (key : Text) → SessionCall

unfoldable pub sessions_call : SessionCall → Call
sessions_call (sessions_list kind) = bare get (scoped (fixed "/sessions" ∷ raw (query kind) ∷ []))
sessions_call (sessions_get key) = bare get (scoped (fixed "/sessions/" ∷ encoded key ∷ []))
sessions_call (sessions_update key fields) =
    with_body put (scoped (fixed "/sessions/" ∷ encoded key ∷ [])) (object fields)
sessions_call (sessions_delete key) = bare delete (scoped (fixed "/sessions/" ∷ encoded key ∷ []))

pub data AgentCall : Type 0 where
  agent_run : (fields : Dict Json) → AgentCall
  agent_run_stream : (fields : Dict Json) → AgentCall

unfoldable pub agent_call : AgentCall → Call
unfolding insert
agent_call (agent_run fields) =
    with_body post (scoped (fixed "/agent/run" ∷ []))
      (object (insert (text "stream") (bool false) fields))
agent_call (agent_run_stream fields) =
    with_body post (scoped (fixed "/agent/run" ∷ []))
      (object (insert (text "stream") (bool true) fields))

pub data OpenaiCall : Type 0 where
  openai_chat_completions : (fields : Dict Json) → OpenaiCall
  openai_chat_completions_stream : (fields : Dict Json) → OpenaiCall

unfoldable pub openai_call : OpenaiCall → Call
unfolding insert
openai_call (openai_chat_completions fields) =
    with_body post (scoped (fixed "/chat/completions" ∷ []))
      (object (insert (text "stream") (bool false) fields))
openai_call (openai_chat_completions_stream fields) =
    with_body post (scoped (fixed "/chat/completions" ∷ []))
      (object (insert (text "stream") (bool true) fields))
