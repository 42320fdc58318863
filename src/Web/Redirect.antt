-- ===== src/Web/Redirect.antt =====
-- apps/web/src/lib/auth/redirect.ts: where a creator goes after the login.
use sol_arch.Prelude.{String, not, ◌||◌, ◌==◌, Option, none, some, starts_with, if◌then◌else◌}

abbrev pub after_login : String
after_login = "/dashboard"

-- `safeRedirect`
unfoldable pub safe_redirect : Option String → String
safe_redirect none = after_login
safe_redirect (some value) =
    if value == ""
    then after_login
    else if not (starts_with "/" value)
    then after_login
    else if starts_with "//" value || starts_with "/\\" value
    then after_login
    else value
