-- ===== src/Auth/Claims.antt =====
-- apps/auth/src/auth/auth.service.ts: the claims of an account, and its password.
use Prim.Native.Char.{code}
use nestjs_graphql_fastify_a.Common.{
  String, Bool, false, ◌||◌, Option, none, some, if◌then◌else◌, ◌==◌, nat_eq, string_eq, or_default,
}
use nestjs_graphql_fastify_a.Common.Text.{to_text, trim, truthy}
use nestjs_graphql_fastify_a.Auth.Accounts.{Account}
use nestjs_graphql_fastify_a.Auth.Tokens.{AccessTokenPayload}

-- `value.replace(/^prefix/, '')`: the text behind the prefix, `none` where it does not start so.
unfoldable pub behind : (prefix value : String) → Option String
behind String.[] value = some value
behind (String.◌∷◌ c prefix) String.[] = none
behind (String.◌∷◌ c prefix) (String.◌∷◌ d value) =
    let rest = behind prefix value in if code c == code d then rest else none

-- The concatenation of two texts, by the characters of the first.
unfoldable pub prepend : (prefix value : String) → String
prepend String.[] value = value
prepend (String.◌∷◌ c prefix) value = String.◌∷◌ c (prepend prefix value)

-- The prefix `{bcrypt}`
abbrev pub bcrypt_prefix : String
bcrypt_prefix = "{bcrypt}"

-- `verifyPassword(plain, stored)`; `bcryptjs.compare` is a parameter.
unfoldable pub verify_password : (String → String → Bool) → String → Option String → Bool
verify_password compare plain none = false
verify_password compare plain (some stored) =
    if truthy stored then compare plain (or_default (behind bcrypt_prefix stored) stored) else false

-- `hashPassword(plain)`; `bcryptjs.hashSync` is a parameter.
unfoldable pub hash_password : (String → String) → String → String
hash_password hash_sync plain = prepend bcrypt_prefix (hash_sync plain)

-- `requireNonBlank(value)`; `none` throws INVALID_TOKEN_CLAIMS.
unfoldable pub require_non_blank : Option String → Option String
require_non_blank none = none
require_non_blank (some value) = let t = trim value in if truthy t then some t else none

-- `normalizeOptionalClaim(value)`
unfoldable pub normalize_optional_claim : Option String → String
normalize_optional_claim none = ""
normalize_optional_claim (some value) = trim value

-- `SPRING_COMPATIBLE_ROLE_TYPES.has`
abbrev pub is_role_type : String → Bool
is_role_type role_type = role_type == "SUPER_ADMIN" || role_type == "ADMIN" || role_type == "MEMBER"

-- `normalizeRoleTypeClaim(value)`
unfoldable pub normalize_role_type_claim : Option String → Option String
normalize_role_type_claim none = none
normalize_role_type_claim (some value) =
    let role_type = trim value in if is_role_type role_type then some role_type else none

-- `normalizeTotpAccountName(account)`: the name, or else the login id.
unfoldable pub normalize_totp_account_name : Account → Option String
unfolding require_non_blank
normalize_totp_account_name account =
    let name = normalize_optional_claim account.name in
    if truthy name then some name else require_non_blank (some account.login_id)

-- What follows a claim that may be refused.
unfoldable pub with_claim :
    Option String → (String → Option AccessTokenPayload) → Option AccessTokenPayload
with_claim none f = none
with_claim (some claim) f = f claim

-- `buildAccessTokenPayload(account)`
unfoldable pub build_access_token_payload : Account → Option AccessTokenPayload
build_access_token_payload account =
    with_claim (require_non_blank (some (to_text account.id))) λ sub.
      with_claim (require_non_blank (some account.login_id)) λ login_id.
        with_claim (require_non_blank account.name) λ name.
          with_claim (require_non_blank (some account.user_type)) λ user_type. some (record {
            sub = sub;
            login_id = login_id;
            name = name;
            user_type = user_type;
            role_type = normalize_role_type_claim account.role_type;
            customer_no = normalize_optional_claim account.customer_no;
          })
