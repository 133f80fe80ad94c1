-- ===== src/Contracts/Json.antt =====
-- The JSON values of agent/contracts.py and the search of their keys. A key is read as its code
-- points. A number is `±digits / 10 ^ places`.
use governed_analytics_agent.Common.{
  ℕ, ◌+◌, String, Bool, true, false, ◌&&◌, ◌||◌, List, [], ◌∷◌, ◌++◌, map, ◌==◌, if◌then◌else◌,
  any_of,
}
use governed_analytics_agent.Events.Identifiers.{
  codes, is_digit, is_lower, is_upper, is_alphanumeric,
}

pub record NumericValue : Type 0 where
  pub negative : Bool
  pub digits : ℕ
  pub places : ℕ

mutual
  pub data Json : Type 0 where
    null : Json
    text : String → Json
    number : NumericValue → Json
    flag : Bool → Json
    array : Elements → Json
    object : Members → Json

  pub data Elements : Type 0 where
    nil : Elements
    cons : Json → Elements → Elements

  pub data Members : Type 0 where
    empty : Members
    entry : String → Json → Members → Members

-- `re.sub(r"(?<=[a-z0-9])(?=[A-Z])", "_", key)`
unfoldable pub snake_case : List ℕ → List ℕ
unfolding is_digit is_lower is_upper
snake_case [] = []
snake_case (c ∷ []) = c ∷ []
snake_case (c ∷ d ∷ cs) =
    let rest = snake_case (d ∷ cs) in
    if (is_lower c || is_digit c) && is_upper d then c ∷ b'_' ∷ rest else c ∷ rest

-- `.lower()` of a text of ASCII letters, digits and `_`
unfoldable pub lower : List ℕ → List ℕ
unfolding is_upper
lower = map (λ c. if is_upper c then c + 32 else c)

abbrev push : List ℕ → List (List ℕ) → List (List ℕ)
push [] tokens = tokens
push (c ∷ cs) tokens = (c ∷ cs) ∷ tokens

-- The maximal runs of ASCII letters and digits: what is left of the separators, stripped, split and
-- filtered. `token` is the run that ends in front of the text.
unfoldable pub tokens_of : List ℕ → List ℕ → List (List ℕ)
unfolding is_alphanumeric
tokens_of token [] = push token []
tokens_of token (c ∷ cs) =
    let inside = tokens_of (token ++ c ∷ []) cs in
    let outside = tokens_of [] cs in if is_alphanumeric c then inside else push token outside

-- `_key_tokens`
unfoldable pub key_tokens : String → List (List ℕ)
unfolding snake_case lower tokens_of
key_tokens key = map (lower) (tokens_of [] (snake_case (codes key)))

unfoldable pub same_codes : List ℕ → List ℕ → Bool
same_codes [] [] = true
same_codes (c ∷ cs) (d ∷ ds) = (c == d) && same_codes cs ds
same_codes _ _ = false

unfoldable pub one_of : List ℕ → List String → Bool
unfolding same_codes
one_of cs = any_of (λ s. same_codes cs (codes s))

-- `_is_evaluation_only_key`
unfoldable pub is_evaluation_only_key : String → Bool
unfolding one_of key_tokens
is_evaluation_only_key key =
    any_of (λ token. one_of token ("oracle" ∷ "expected" ∷ "scorer" ∷ [])) (key_tokens key)

-- `_FINAL_SUMMARY_FORBIDDEN_TOKENS`
abbrev pub final_summary_forbidden_tokens : List String
final_summary_forbidden_tokens =
    "apikey" ∷ "authorization" ∷ "binding" ∷ "bindings" ∷ "credential" ∷ "credentials" ∷ "endpoint"
    ∷ "exception" ∷ "param" ∷ "parameter" ∷ "parameters" ∷ "params" ∷ "password" ∷ "payload"
    ∷ "prompt" ∷ "raw" ∷ "record" ∷ "records" ∷ "row" ∷ "rows" ∷ "secret" ∷ "sql" ∷ "statement"
    ∷ "token" ∷ "traceback" ∷ "uri" ∷ "url" ∷ []

abbrev concat : List (List ℕ) → List ℕ
concat [] = []
concat (cs ∷ rest) = cs ++ concat rest

-- `_is_final_summary_forbidden_key`
unfoldable pub is_final_summary_forbidden_key : String → Bool
unfolding one_of key_tokens is_evaluation_only_key
is_final_summary_forbidden_key key =
    is_evaluation_only_key key
    || one_of (concat (key_tokens key)) ("apikey" ∷ "baseurl" ∷ "rawerror" ∷ "databaseerror" ∷ [])
    || any_of (λ token. one_of token final_summary_forbidden_tokens) (key_tokens key)

-- `_json_has_forbidden_key`, of a value, of a tuple and of a mapping.
unfoldable mutual
  pub json_has_forbidden_key : (String → Bool) → Json → Bool
  json_has_forbidden_key forbidden (object members) = members_have_forbidden_key forbidden members
  json_has_forbidden_key forbidden (array items) = elements_have_forbidden_key forbidden items
  json_has_forbidden_key forbidden _ = false

  pub elements_have_forbidden_key : (String → Bool) → Elements → Bool
  elements_have_forbidden_key forbidden nil = false
  elements_have_forbidden_key forbidden (cons v items) =
      json_has_forbidden_key forbidden v || elements_have_forbidden_key forbidden items

  pub members_have_forbidden_key : (String → Bool) → Members → Bool
  members_have_forbidden_key forbidden empty = false
  members_have_forbidden_key forbidden (entry key v members) =
      forbidden key
      || json_has_forbidden_key forbidden v
      || members_have_forbidden_key forbidden members
