-- ===== src/Common/Headers.antt =====
-- HTTP headers as the servers of Node.js hand them over, and ASCII lower case: the header names,
-- protocols, hosts and schemes that the program lowers are ASCII.
use Prim.Native.Char.{Char, code}
use Prim.Native.String.{String, [], ◌∷◌}
use mathlib.Core.Option.{Option, none, some}
use mathlib.Core.List.{List}
use nestjs_graphql_fastify_a.Common.Tests.{◌==◌, nat_eq, string_eq, if◌then◌else◌}
use nestjs_graphql_fastify_a.Common.Text.{trim, truthy}

-- The letter at the place of `c` in the first text, from the second one.
lower_in : (upper lower : String) → Char → Char
lower_in [] lower c = c
lower_in (u ∷ upper) [] c = c
lower_in (u ∷ upper) (l ∷ lower) c = if code u == code c then l else lower_in upper lower c

-- `toLowerCase()`
unfoldable pub to_lower_case : String → String
unfolding lower_in
to_lower_case [] = ""
to_lower_case (c ∷ s) =
    lower_in "ABCDEFGHIJKLMNOPQRSTUVWXYZ" "abcdefghijklmnopqrstuvwxyz" c ∷ to_lower_case s

-- `string | string[]`
pub data HeaderValue : Type 0 where
  one : String → HeaderValue
  many : List String → HeaderValue

abbrev pub IncomingHttpHeaders : Type 0
IncomingHttpHeaders = List (String × HeaderValue)

-- `Array.isArray(value) ? value[0] : value`
abbrev pub first_value : Option HeaderValue → Option String
first_value none = none
first_value (some (one s)) = some s
first_value (some (many List.[])) = none
first_value (some (many (List.◌∷◌ s ss))) = some s

-- `text.split(',')[0]`
unfoldable pub first_comma_separated : String → String
first_comma_separated [] = ""
first_comma_separated (c ∷ s) =
    let rest = first_comma_separated s in if code c == b',' then "" else c ∷ rest

-- `value?.trim() || undefined`
unfoldable pub non_blank : Option String → Option String
non_blank none = none
non_blank (some s) = let t = trim s in if truthy t then some t else none
