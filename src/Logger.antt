-- ===== src/Logger.antt =====
-- pkg/logger/logger.go: the level and the handler that Init chooses, and the attributes that
-- ContextHandler adds. strings.ToLower and the handlers of log/slog are parameters.
use holdex_backend_cqrs.Prelude.{
  String, Option, none, some, List, [], ◌∷◌, ◌++◌, str_eq, if◌then◌else◌,
}

pub data Level : Type 0 where
  level_debug level_info level_warn level_error : Level

-- The switch on the lower-case level.
unfoldable pub level_of : (String → String) → String → Level
level_of to_lower level =
    let l = to_lower level in
    if str_eq l "debug"
    then level_debug
    else if str_eq l "info"
    then level_info
    else if str_eq l "warn"
    then level_warn
    else if str_eq l "error"
    then level_error
    else level_info

pub data Format : Type 0 where
  json_format text_format : Format

-- The handler, by the variable ENV.
abbrev pub format_of : String → Format
format_of env = if str_eq env "production" then json_format else text_format

pub record LogSettings : Type 0 where
  pub level : Level
  pub format : Format

unfoldable pub init : (String → String) → String → String → LogSettings
unfolding level_of
init to_lower level env = record { level = level_of to_lower level; format = format_of env }

pub record SpanIds : Type 0 where
  pub trace_id : String
  pub span_id : String

abbrev pub LogAttrs : Type 0
LogAttrs = List (String × String)

-- The attributes of a record that the wrapped handler gets. `none` is a span context that is not
-- valid.
unfoldable pub handle : Option SpanIds → LogAttrs → LogAttrs
handle none attrs = attrs
handle (some ids) attrs = attrs ++ ("trace_id", ids.trace_id) ∷ ("span_id", ids.span_id) ∷ []
