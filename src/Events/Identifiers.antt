-- ===== src/Events/Identifiers.antt =====
-- The regular expressions of runtime/events.py, over code points. They are only asked of texts whose
-- characters the first test of each check has found to be ASCII, so case folding is that of ASCII.
use Prim.Native.Char.{code}
use governed_analytics_agent.Common.{
  ℕ, ◌+◌, String, Bool, true, false, not, ◌&&◌, ◌||◌, List, [], ◌∷◌, leb, ◌==◌, length, all_of,
  any_of, if◌then◌else◌,
}

-- The code points of a text.
abbrev pub codes : String → List ℕ
codes String.[] = []
codes (String.◌∷◌ c s) = code c ∷ codes s

unfoldable pub is_digit : ℕ → Bool
is_digit c = leb b'0' c && leb c b'9'

unfoldable pub is_lower : ℕ → Bool
is_lower c = leb b'a' c && leb c b'z'

unfoldable pub is_upper : ℕ → Bool
is_upper c = leb b'A' c && leb c b'Z'

unfoldable pub is_alphanumeric : ℕ → Bool
unfolding is_digit is_lower is_upper
is_alphanumeric c = is_upper c || is_lower c || is_digit c

-- `[A-Za-z0-9_.-]` and `[A-Za-z0-9_.:-]`
unfoldable pub is_run_id_char : ℕ → Bool
unfolding is_alphanumeric
is_run_id_char c = is_alphanumeric c || c == b'_' || c == b'.' || c == b'-'

unfoldable pub is_identifier_char : ℕ → Bool
unfolding is_run_id_char
is_identifier_char c = is_run_id_char c || c == b':'

-- `^[first][rest]{0,limit}$`
unfoldable pub full_match : (ℕ → Bool) → (ℕ → Bool) → ℕ → List ℕ → Bool
full_match first rest limit [] = false
full_match first rest limit (c ∷ cs) = first c && all_of rest cs && leb (length cs) limit

-- `_RUN_ID`, `_IDENTIFIER`, `_COLUMN`, `_QUERY_ID`
unfoldable pub matches_run_id : List ℕ → Bool
unfolding full_match is_run_id_char
matches_run_id = full_match is_alphanumeric is_run_id_char 127

unfoldable pub matches_identifier : List ℕ → Bool
unfolding full_match is_identifier_char
matches_identifier = full_match is_alphanumeric is_identifier_char 127

unfoldable pub matches_column : List ℕ → Bool
unfolding full_match is_lower is_digit
matches_column = full_match is_lower (λ c. is_lower c || is_digit c || c == b'_') 63

unfoldable pub matches_query_id : List ℕ → Bool
unfolding is_digit
matches_query_id cs = all_of (λ c. is_digit c || (leb b'a' c && leb c b'f')) cs && length cs == 64

unfoldable pub all_digits : List ℕ → Bool
unfolding is_digit
all_digits = all_of is_digit

-- `0|[1-9][0-9]*`
unfoldable pub matches_integer : List ℕ → Bool
unfolding all_digits is_digit
matches_integer [] = false
matches_integer (c ∷ []) = is_digit c
matches_integer (c ∷ d ∷ cs) = leb b'1' c && leb c b'9' && all_digits (d ∷ cs)

-- The text before the first `stop`, and the text after it, which is empty if there is none.
unfoldable pub before : ℕ → List ℕ → List ℕ
before stop [] = []
before stop (c ∷ cs) = if c == stop then [] else c ∷ before stop cs

unfoldable pub after : ℕ → List ℕ → List ℕ
after stop [] = []
after stop (c ∷ cs) = if c == stop then cs else after stop cs

unfoldable pub holds : ℕ → List ℕ → Bool
holds stop cs = any_of (λ c. c == stop) cs

abbrev is_nonempty : List ℕ → Bool
is_nonempty [] = false
is_nonempty (c ∷ cs) = true

-- `_MONEY`, `^(?:0|[1-9][0-9]*)(?:\.[0-9]+)?$`
unfoldable pub matches_money : List ℕ → Bool
unfolding matches_integer before after holds all_digits
matches_money cs =
    matches_integer (before b'.' cs)
    && (not (holds b'.' cs) || (is_nonempty (after b'.' cs) && all_digits (after b'.' cs)))

fold_case : ℕ → ℕ
unfolding is_upper
fold_case c = if is_upper c then c + 32 else c

-- `[_.:-]`
is_separator : ℕ → Bool
is_separator c = c == b'_' || c == b'.' || c == b':' || c == b'-'

-- `word(?:$|[_.:-])`, from the text's start
starts_with_word : List ℕ → List ℕ → Bool
unfolding is_separator fold_case
starts_with_word [] [] = true
starts_with_word [] (c ∷ cs) = is_separator c
starts_with_word (w ∷ ws) [] = false
starts_with_word (w ∷ ws) (c ∷ cs) = fold_case c == w && starts_with_word ws cs

abbrev sensitive_words : List (List ℕ)
sensitive_words =
    codes "api_key"
    ∷ codes "api-key"
    ∷ codes "apikey"
    ∷ codes "secret"
    ∷ codes "password"
    ∷ codes "token"
    ∷ codes "authorization"
    ∷ codes "bearer"
    ∷ codes "prompt"
    ∷ codes "payload"
    ∷ codes "endpoint"
    ∷ []

-- A word between separators or ends; the flag tells whether a separator or the start stands before.
word_from : Bool → List ℕ → Bool
unfolding starts_with_word
word_from open_before [] = false
word_from open_before (c ∷ cs) =
    (open_before && any_of (λ w. starts_with_word w (c ∷ cs)) sensitive_words)
    || word_from (is_separator c) cs

-- `^(?:sk|pk)-`
starts_with_key : List ℕ → Bool
unfolding fold_case
starts_with_key (a ∷ b ∷ c ∷ cs) =
    (fold_case a == b's' || fold_case a == b'p') && fold_case b == b'k' && c == b'-'
starts_with_key _ = false

-- `_SENSITIVE_IDENTIFIER.search`
unfoldable pub is_sensitive : List ℕ → Bool
unfolding word_from starts_with_key
is_sensitive cs = word_from true cs || starts_with_key cs

-- `_safe_run_id` and `_identifier`: whether they return.
unfoldable pub safe_run_id : String → Bool
unfolding matches_run_id is_sensitive
safe_run_id s = matches_run_id (codes s) && not (is_sensitive (codes s))

unfoldable pub safe_identifier : String → Bool
unfolding matches_identifier is_sensitive
safe_identifier s = matches_identifier (codes s) && not (is_sensitive (codes s))

unfoldable pub safe_column : String → Bool
unfolding matches_column is_sensitive
safe_column s = matches_column (codes s) && not (is_sensitive (codes s))

unfoldable pub safe_query_id : String → Bool
unfolding matches_query_id
safe_query_id s = matches_query_id (codes s)

-- `_money`; `Decimal` of such a text is finite and not negative.
unfoldable pub safe_money : String → Bool
unfolding matches_money
safe_money s = leb 1 (length (codes s)) && leb (length (codes s)) 64 && matches_money (codes s)
