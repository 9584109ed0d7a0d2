-- ===== src/Errors/Reported.antt =====
-- Which error of a chain of causes is reported, and that the breaker and the filter agree on it.
use nestjs_graphql_fastify_a.Common.{
  String, Bool, true, false, Option, none, some, List, [], ◌∷◌, find, ◌==◌, nat_eq, string_eq,
  or_default, or_else, is_some, ◌≡◌, refl, arith, Bool-cases, inl, inr,
}
use nestjs_graphql_fastify_a.Common.Text.{truthy, truthy?}
use nestjs_graphql_fastify_a.Errors.{
  Data, unparsed, parsed, object, other_data, AxiosError, Thrown, axios, no_axios,
  find_axios_error_with_response, parse_downstream_error_data, parse_error_data, data_of,
  is_structured_downstream_error, is_timeout, status_of, by_status, from_status,
  to_axios_graphql_error,
}

-- The Axios errors from what was thrown down its causes, up to the first other cause
unfoldable pub chain : Thrown → List AxiosError
chain no_axios = []
chain (axios e cause) = e ∷ chain cause

unfoldable pub last_of : AxiosError → List AxiosError → AxiosError
last_of e [] = e
last_of e (next ∷ rest) = last_of next rest

abbrev pub has_response : AxiosError → Bool
has_response e = is_some e.response

-- The error that is looked at is the first of the chain with a response, or else the last one.
pub find_axios_error_lem :
    (fallback : AxiosError) (t : Thrown)
    → find_axios_error_with_response fallback t
      ≡ or_default (find has_response (chain t)) (last_of fallback (chain t))
unfolding find_axios_error_with_response chain last_of
find_axios_error_lem fallback no_axios = refl
find_axios_error_lem fallback (axios e cause) = elim (Bool-cases (has_response e)) [
  | inl answered ↦ rw answered refl
  | inr silent ↦ rw silent (find_axios_error_lem e cause)
]

-- Both parses of the data find the same code and message.
parses_agree :
    (d : Data)
    → ((parse_downstream_error_data d).error_code ≡ (parse_error_data d).0)
      × ((parse_downstream_error_data d).message ≡ (parse_error_data d).1)
unfolding parse_downstream_error_data parse_error_data
parses_agree (unparsed text) = (refl, refl)
parses_agree (parsed text d) = parses_agree d
parses_agree (object f) = (refl, refl)
parses_agree other_data = (refl, refl)

truthy_text :
    (o : Option String) → truthy? o ≡ true → (t : String) × (o ≡ some t) × (truthy t ≡ true)
truthy_text none h = absurd (ground (arith, h))
truthy_text (some t) h = (t, refl, h)

module _ (e : AxiosError) (cause : Thrown) where
  abbrev reported : AxiosError
  reported = find_axios_error_with_response e (axios e cause)

  -- An error that the circuit breaker takes for a structured answer of the other service, and not
  -- for a failure, is reported to the client with the code and the message of this answer, unless
  -- it is a timeout or has no status.
  pub structured_reported :
      is_structured_downstream_error (axios e cause) ≡ true
      → is_timeout (or_else e.code reported.code) ≡ false
      → (or_default (status_of reported) 0 == 0) ≡ false
      → let g = to_axios_graphql_error e cause in
        (code : String) × (message : String) × (parse_error_data (data_of reported)
          ≡ (some code, some message))
        × (g.error_code ≡ some code)
        × (g.message ≡ message)
        × (g.status_code ≡ or_default (status_of reported) 0)
  unfolding is_structured_downstream_error to_axios_graphql_error by_status from_status
  structured_reported structured no_timeout answered =
      let found = parse_error_data (data_of reported) in
      let (code, is_code, code_truthy) = truthy_text found.0 (ground (arith, structured)) in
      let (message, is_message, message_truthy) =
        truthy_text found.1 (ground (arith, structured)) in
      let (same_code, same_message) = parses_agree (data_of reported) in
      (
        code,
        message,
        pair_path is_code is_message,
        rw (no_timeout, answered, same_code, is_code, code_truthy) refl,
        rw (no_timeout, answered, same_message, is_message) refl,
        rw (no_timeout, answered) refl,
      )
    where
      pair_path :
          {a b c d : Option String}
          → a ≡ b
          → c ≡ d
          → ◌≡◌ {A = Option String × Option String} (a, c) (b, d)
      pair_path p q = cc
