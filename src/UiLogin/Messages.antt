-- ===== src/UiLogin/Messages.antt =====
-- apps/ui/src/features/auth/error-message.ts: the message of an error that the user sees.
use Prim.Native.Char.{code}
use Prim.Native.String as Str
use nestjs_graphql_fastify_a.Common.{
  ℕ, zero, suc, String, Bool, false, not, ◌&&◌, ◌||◌, Option, none, some, List, [], ◌∷◌, ◌==◌,
  nat_eq, if◌then◌else◌, or_else,
}
use nestjs_graphql_fastify_a.Common.Text.{trim, truthy, includes, starts_with}
use nestjs_graphql_fastify_a.Common.Headers.{to_lower_case}

-- `ApolloErrorLike`. A list of errors is the list of their messages, `none` for one that is no text;
-- what is no array is missing.
pub record ApolloError : Type 0 where
  pub message : Option String
  pub errors : Option (List (Option String))
  pub graph_ql_errors : Option (List (Option String))
  pub network_message : Option String
  pub network_errors : Option (List (Option String))

unfoldable pub first_text : List (Option String) → Option String
first_text [] = none
first_text (none ∷ messages) = first_text messages
first_text (some message ∷ messages) = some message

-- `firstMessage`
unfoldable pub first_message : Option (List (Option String)) → Option String
first_message none = none
first_message (some messages) = first_text messages

abbrev pub is_line_end : ℕ → Bool
is_line_end c = c == 10 || c == 13 || c == 0x2028 || c == 0x2029

-- Whether the part stands in the first line of the text
unfoldable pub line_includes : (part text : String) → Bool
line_includes part Str.[] = false
line_includes part (Str.◌∷◌ c text) =
    let later = line_includes part text in
    starts_with part (Str.◌∷◌ c text) || not (is_line_end (code c)) && later

unfoldable pub skip : ℕ → String → String
skip zero text = text
skip (suc n) Str.[] = ""
skip (suc n) (Str.◌∷◌ c text) = skip n text

-- `/data.*undefined/`
unfoldable pub mentions_undefined_data : String → Bool
mentions_undefined_data Str.[] = false
mentions_undefined_data (Str.◌∷◌ c text) =
    let later = mentions_undefined_data text in
    starts_with "data" (Str.◌∷◌ c text) && line_includes "undefined" (skip 4 (Str.◌∷◌ c text))
    || later

-- `TECHNICAL_ERROR_PATTERNS.some((pattern) => pattern.test(text))`, of a text in lower case
unfoldable pub is_technical : String → Bool
is_technical text =
    mentions_undefined_data text
    || includes "cannot read properties" text
    || includes "backend service error" text

unfoldable pub is_unreachable : String → Bool
is_unreachable text =
    includes "backend service unavailable" text
    || includes "failed to fetch" text
    || includes "networkerror" text

-- `sanitizeMessage`
unfoldable pub sanitize_message : Option String → (fallback : String) → String
sanitize_message none fallback = fallback
sanitize_message (some message) fallback =
    let trimmed = trim message in
    let lower = to_lower_case trimmed in
    if not (truthy trimmed)
    then fallback
    else if is_unreachable lower
    then "인증 서버에 연결할 수 없습니다."
    else if includes "timeout" lower
    then "인증 서버 응답이 지연되고 있습니다. 잠시 후 다시 시도해주세요."
    else if is_technical lower
    then fallback
    else trimmed

-- `getAuthErrorMessage`; `none` is what is no object.
unfoldable pub get_auth_error_message : Option ApolloError → (fallback : String) → String
unfolding sanitize_message
get_auth_error_message none fallback = fallback
get_auth_error_message (some error) fallback =
    sanitize_message
      (or_else
        (or_else
          (or_else (or_else (first_message error.errors) (first_message error.graph_ql_errors))
            (first_message error.network_errors))
          error.message)
        error.network_message)
      fallback
