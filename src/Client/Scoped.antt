-- ===== src/Client/Scoped.antt =====
-- The paths of ui/web/src/lib/api.ts.
use mathlib.Core.Path.{subst}
use mathlib.Core.Option.{some-injective}
use temporal_loom.Prelude.{
  ◌≡◌, refl, sym, ap, ◌∙◌, true, false, ◌||◌, [], ◌∷◌, ◌++◌, append-nil, Option, none, some, arith,
  Text, text, eqb, All, append_assoc, String, Dict, starts_with, starts_with-to,
}
use temporal_loom.Prelude.Options.{◌>>=◌, map_some}
use temporal_loom.Browser.{Browser}
use temporal_loom.Client.{
  encode_uri_component, path_text, get_active_workspace_id, ws_path, request_path, CallPath, plain,
  scoped, fixed, encoded, raw, ClientCall, client_call, SessionCall, sessions_call, AgentCall,
  agent_call, OpenaiCall, openai_call, SkillCall, skills_call, ContextFileCall, context_files_call,
  RbacCall, rbac_call, McpServerCall, mcp_servers_call, KnowledgeCall, knowledge_call, RoutineCall,
  routines_call, sessions_list, sessions_get, sessions_update, sessions_delete, agent_run,
  agent_run_stream, openai_chat_completions, openai_chat_completions_stream, skills_list,
  skills_get, skills_create, skills_update, skills_delete, skills_generate_stream,
  context_files_list, context_files_create, context_files_upsert, context_files_delete, rbac_me,
  rbac_resources, rbac_list, rbac_create, rbac_update, rbac_delete, mcp_servers_list,
  mcp_servers_get, mcp_servers_create, mcp_servers_update, mcp_servers_refresh,
  mcp_servers_set_function_enabled, mcp_servers_start_oauth, mcp_servers_disconnect_oauth,
  mcp_servers_delete, knowledge_list, knowledge_get, knowledge_create, knowledge_update,
  knowledge_delete, knowledge_sync, routines_list, routines_get, routines_create, routines_update,
  routines_delete, routines_list_runs, routines_fire, routines_rotate_token, routines_revoke_token,
  in_auth, in_workspaces, in_sessions, in_agent, in_openai, in_skills, in_context_files, in_rbac,
  in_mcp_servers, in_knowledge, in_routines,
}
use temporal_loom.Client.Inner.{AllInner, encode_uri_component-AllInner}

ws_path-encoded :
    (b : Browser) (rest : Text)
    → ws_path b rest
      ≡ map_some
          (λ w. text "/workspaces/" ++ (w ++ rest))
          (encode_uri_component (get_active_workspace_id b))
unfolding ws_path path_text
ws_path-encoded b rest = go (encode_uri_component (get_active_workspace_id b))
  where
    go :
        (o : Option Text)
        → ((o >>= λ w. some (w ++ (rest ++ []))) >>= λ u. some (text "/workspaces/" ++ u))
          ≡ map_some (λ w. text "/workspaces/" ++ (w ++ rest)) o
    go none = refl
    go (some w) = ap (λ t. some (text "/workspaces/" ++ (w ++ t))) (append-nil rest)

-- What the paths of the calls begin with, behind the workspace where they have one.
abbrev pub root_of : ClientCall → Option String
root_of (in_auth k) = none
root_of (in_workspaces k) = none
root_of (in_sessions k) = some "/sessions"
root_of (in_agent k) = some "/agent/run"
root_of (in_openai k) = some "/chat/completions"
root_of (in_skills k) = some "/skills"
root_of (in_context_files k) = some "/context-files"
root_of (in_rbac k) = some "/rbac/"
root_of (in_mcp_servers k) = some "/mcp/servers"
root_of (in_knowledge k) = some "/knowledge"
root_of (in_routines k) = some "/routines"

-- The text is "/workspaces/", the encoded id of the active workspace, in which no slash, question mark
-- or number sign stands, the root, and anything behind.
pub record IsScoped (b : Browser) (root : String) (path : Text) : Type 0 where
  pub id : Text
  pub rest : Text
  pub is_id : encode_uri_component (get_active_workspace_id b) ≡ some id
  pub is_path : path ≡ text "/workspaces/" ++ (id ++ (text root ++ rest))
  pub inner : All (λ c. (eqb c 47 || (eqb c 63 || eqb c 35)) ≡ false) id

-- A path through `wsPath` whose first part begins with the root.
IsUnder : String → CallPath → Type 0
IsUnder root (plain parts) = ⊥
IsUnder root (scoped []) = ⊥
IsUnder root (scoped (fixed s ∷ parts)) = starts_with (text s) (text root) ≡ true
IsUnder root (scoped (encoded t ∷ parts)) = ⊥
IsUnder root (scoped (raw t ∷ parts)) = ⊥

IsScoped-from :
    (b : Browser) (root : String) (path rest : Text) (o : Option Text)
    → encode_uri_component (get_active_workspace_id b) ≡ o
    → AllInner o
    → map_some (λ w. text "/workspaces/" ++ (w ++ (text root ++ rest))) o ≡ some path
    → IsScoped b root path
IsScoped-from b root path rest none f h k = absurd (ground arith)
IsScoped-from b root path rest (some w) f h k = record {
  id = w;
  rest = rest;
  is_id = f;
  is_path = sym (some-injective _ _ k);
  inner = h;
}

sessions_call-IsUnder : (k : SessionCall) → IsUnder "/sessions" (sessions_call k).path
unfolding sessions_call IsUnder text starts_with
sessions_call-IsUnder (sessions_list kind) = refl
sessions_call-IsUnder (sessions_get key) = refl
sessions_call-IsUnder (sessions_update key fields) = refl
sessions_call-IsUnder (sessions_delete key) = refl

agent_call-IsUnder : (k : AgentCall) → IsUnder "/agent/run" (agent_call k).path
unfolding agent_call IsUnder text starts_with
agent_call-IsUnder (agent_run fields) = refl
agent_call-IsUnder (agent_run_stream fields) = refl

openai_call-IsUnder : (k : OpenaiCall) → IsUnder "/chat/completions" (openai_call k).path
unfolding openai_call IsUnder text starts_with
openai_call-IsUnder (openai_chat_completions fields) = refl
openai_call-IsUnder (openai_chat_completions_stream fields) = refl

skills_call-IsUnder : (k : SkillCall) → IsUnder "/skills" (skills_call k).path
unfolding skills_call IsUnder text starts_with
skills_call-IsUnder skills_list = refl
skills_call-IsUnder (skills_get id) = refl
skills_call-IsUnder (skills_create fields) = refl
skills_call-IsUnder (skills_update id fields) = refl
skills_call-IsUnder (skills_delete id) = refl
skills_call-IsUnder (skills_generate_stream fields) = refl

context_files_call-IsUnder :
    (search_params : Dict Text → Text) (k : ContextFileCall)
    → IsUnder "/context-files" (context_files_call search_params k).path
unfolding context_files_call IsUnder text starts_with
context_files_call-IsUnder search_params context_files_list = refl
context_files_call-IsUnder search_params (context_files_create fields) = refl
context_files_call-IsUnder search_params (context_files_upsert fields) = refl
context_files_call-IsUnder search_params (context_files_delete scope path user_id) = refl

rbac_call-IsUnder : (k : RbacCall) → IsUnder "/rbac/" (rbac_call k).path
unfolding rbac_call IsUnder text starts_with
rbac_call-IsUnder rbac_me = refl
rbac_call-IsUnder rbac_resources = refl
rbac_call-IsUnder rbac_list = refl
rbac_call-IsUnder (rbac_create fields) = refl
rbac_call-IsUnder (rbac_update name fields) = refl
rbac_call-IsUnder (rbac_delete name) = refl

mcp_servers_call-IsUnder : (k : McpServerCall) → IsUnder "/mcp/servers" (mcp_servers_call k).path
unfolding mcp_servers_call IsUnder text starts_with
mcp_servers_call-IsUnder mcp_servers_list = refl
mcp_servers_call-IsUnder (mcp_servers_get name) = refl
mcp_servers_call-IsUnder (mcp_servers_create fields) = refl
mcp_servers_call-IsUnder (mcp_servers_update name fields) = refl
mcp_servers_call-IsUnder (mcp_servers_refresh name) = refl
mcp_servers_call-IsUnder (mcp_servers_set_function_enabled name fn enabled) = refl
mcp_servers_call-IsUnder (mcp_servers_start_oauth name) = refl
mcp_servers_call-IsUnder (mcp_servers_disconnect_oauth name) = refl
mcp_servers_call-IsUnder (mcp_servers_delete name) = refl

knowledge_call-IsUnder : (k : KnowledgeCall) → IsUnder "/knowledge" (knowledge_call k).path
unfolding knowledge_call IsUnder text starts_with
knowledge_call-IsUnder knowledge_list = refl
knowledge_call-IsUnder (knowledge_get id) = refl
knowledge_call-IsUnder (knowledge_create fields) = refl
knowledge_call-IsUnder (knowledge_update id fields) = refl
knowledge_call-IsUnder (knowledge_delete id) = refl
knowledge_call-IsUnder (knowledge_sync id reset) = refl

routines_call-IsUnder : (k : RoutineCall) → IsUnder "/routines" (routines_call k).path
unfolding routines_call IsUnder text starts_with
routines_call-IsUnder routines_list = refl
routines_call-IsUnder (routines_get id) = refl
routines_call-IsUnder (routines_create fields) = refl
routines_call-IsUnder (routines_update id fields) = refl
routines_call-IsUnder (routines_delete id) = refl
routines_call-IsUnder (routines_list_runs id limit) = refl
routines_call-IsUnder (routines_fire id prompt) = refl
routines_call-IsUnder (routines_rotate_token id) = refl
routines_call-IsUnder (routines_revoke_token id) = refl

client_call-IsUnder :
    (search_params : Dict Text → Text) (k : ClientCall) (root : String)
    → root_of k ≡ some root
    → IsUnder root (client_call search_params k).path
unfolding client_call
client_call-IsUnder search_params (in_auth k) root h = cc
client_call-IsUnder search_params (in_workspaces k) root h = cc
client_call-IsUnder search_params (in_sessions k) root h =
    subst (λ r. IsUnder r (sessions_call k).path) (some-injective _ _ h) (sessions_call-IsUnder k)
client_call-IsUnder search_params (in_agent k) root h =
    subst (λ r. IsUnder r (agent_call k).path) (some-injective _ _ h) (agent_call-IsUnder k)
client_call-IsUnder search_params (in_openai k) root h =
    subst (λ r. IsUnder r (openai_call k).path) (some-injective _ _ h) (openai_call-IsUnder k)
client_call-IsUnder search_params (in_skills k) root h =
    subst (λ r. IsUnder r (skills_call k).path) (some-injective _ _ h) (skills_call-IsUnder k)
client_call-IsUnder search_params (in_context_files k) root h =
    subst (λ r. IsUnder r (context_files_call search_params k).path) (some-injective _ _ h)
      (context_files_call-IsUnder search_params k)
client_call-IsUnder search_params (in_rbac k) root h =
    subst (λ r. IsUnder r (rbac_call k).path) (some-injective _ _ h) (rbac_call-IsUnder k)
client_call-IsUnder search_params (in_mcp_servers k) root h =
    subst (λ r. IsUnder r (mcp_servers_call k).path) (some-injective _ _ h)
      (mcp_servers_call-IsUnder k)
client_call-IsUnder search_params (in_knowledge k) root h =
    subst (λ r. IsUnder r (knowledge_call k).path) (some-injective _ _ h) (knowledge_call-IsUnder k)
client_call-IsUnder search_params (in_routines k) root h =
    subst (λ r. IsUnder r (routines_call k).path) (some-injective _ _ h) (routines_call-IsUnder k)

under-IsScoped :
    (b : Browser) (root : String) (path first rest more : Text)
    → first ≡ text root ++ more
    → ws_path b (first ++ rest) ≡ some path
    → IsScoped b root path
under-IsScoped b root path first rest more e h =
    let whole : first ++ rest ≡ text root ++ (more ++ rest) =
      ap (λ t. t ++ rest) e ∙ append_assoc (text root) more rest in
    IsScoped-from b root path (more ++ rest) (encode_uri_component (get_active_workspace_id b)) refl
      (encode_uri_component-AllInner (get_active_workspace_id b))
      (sym (ws_path-encoded b (text root ++ (more ++ rest))) ∙ ap (ws_path b) (sym whole) ∙ h)

IsUnder-IsScoped :
    (b : Browser) (root : String) (p : CallPath) (path : Text)
    → IsUnder root p
    → request_path b p ≡ some path
    → IsScoped b root path
unfolding IsUnder request_path path_text
IsUnder-IsScoped b root (plain parts) path u h = absurd u
IsUnder-IsScoped b root (scoped []) path u h = absurd u
IsUnder-IsScoped b root (scoped (encoded t ∷ parts)) path u h = absurd u
IsUnder-IsScoped b root (scoped (raw t ∷ parts)) path u h = absurd u
IsUnder-IsScoped b root (scoped (fixed s ∷ parts)) path u h = by_rest (path_text parts) h
  where
    by_rest :
        (o : Option Text)
        → ((o >>= λ t. some (text s ++ t)) >>= λ p. ws_path b p) ≡ some path
        → IsScoped b root path
    by_rest none k = cc
    by_rest (some rest) k =
        let (more, e) = starts_with-to (text s) (text root) u in
        under-IsScoped b root path (text s) rest more e k

-- Every call of the objects of the client but auth, sso and workspaces, whatever ids and fields it is given
-- and whichever workspace is active, if its path has no part that encodeURIComponent refuses, is sent
-- to a path that, as a text, begins with "/workspaces/", the encoded id of the active workspace without a
-- slash, a question mark or a number sign in it, and the root of its object.
pub client_call-IsScoped :
    (search_params : Dict Text → Text) (b : Browser) (k : ClientCall) (root : String) (path : Text)
    → root_of k ≡ some root
    → request_path b (client_call search_params k).path ≡ some path
    → IsScoped b root path
client_call-IsScoped search_params b k root path h e =
    IsUnder-IsScoped b root (client_call search_params k).path path
      (client_call-IsUnder search_params k root h) e
