-- ===== src/Auth.antt =====
-- ui/web/src/stores/auth.ts. The cookie that `sub` starts from is an argument.
pub mod Access
use temporal_loom.Prelude.{
  Bool, true, false, List, [], ◌∷◌, ◌++◌, any, Option, none, some, String, Text, text, ◌==◌,
  contains, starts_with,
}

pub record AuthState : Type 0 where
  pub sub : Text
  pub permissions : Option (List Text)

abbrev pub initial : Text → AuthState
initial cookie = record { sub = cookie; permissions = none }

unfoldable pub set_sub : Text → AuthState → AuthState
set_sub sub s = record s { sub = sub }

unfoldable pub set_permissions : Option (List Text) → AuthState → AuthState
set_permissions perms s = record s { permissions = perms }

abbrev pub tab_prefix : Text → Text
tab_prefix tab_name = text "tab:" ++ (tab_name ++ text ":")

abbrev pub granted : (List Text → Bool) → Option (List Text) → Bool
granted test none = true
granted test (some permissions) = test permissions

unfoldable pub has_permission : Text → AuthState → Bool
has_permission resource s = granted (λ ps. contains ps resource) s.permissions

unfoldable pub has_tab_access : Text → AuthState → Bool
unfolding starts_with
has_tab_access tab_name s =
    granted (λ ps. any (λ p. starts_with p (tab_prefix tab_name)) ps) s.permissions

unfoldable pub clear_auth : AuthState → AuthState
clear_auth s = record { sub = []; permissions = none }
