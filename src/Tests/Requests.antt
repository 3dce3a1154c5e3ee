-- ===== src/Tests/Requests.antt =====
-- Calls and their paths.
use temporal_loom.Prelude.{Dict, Text, ◌++◌, ◌≡◌, refl, [], ◌∷◌, some, text, lookup, ◌==◌}
use temporal_loom.Browser.{Browser}
use temporal_loom.Client.{
  request_path, ClientCall, client_call, in_mcp_servers, mcp_servers_call, mcp_servers_refresh,
  workspace_key,
}
use temporal_loom.Client.Scoped.{IsScoped, client_call-IsScoped}

abbrev tab : Browser
tab = record { session = (workspace_key, text "a/b") ∷ []; local = [] }

abbrev refresh : ClientCall
refresh = in_mcp_servers (mcp_servers_refresh (text "x y"))

-- A printer of search parameters that prints their values.
abbrev values : Dict Text → Text
values [] = []
values ((k, v) ∷ ps) = v ++ values ps

refresh_path :
    request_path tab (client_call values refresh).path
    ≡ some (text "/workspaces/a%2Fb/mcp/servers/x%20y/refresh")
unfolding request_path client_call mcp_servers_call text lookup ◌==◌
refresh_path = refl

client_call-IsScoped_example :
    IsScoped tab "/mcp/servers" (text "/workspaces/a%2Fb/mcp/servers/x%20y/refresh")
client_call-IsScoped_example =
    client_call-IsScoped values tab refresh "/mcp/servers"
      (text "/workspaces/a%2Fb/mcp/servers/x%20y/refresh") refl refresh_path
