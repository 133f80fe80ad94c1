-- ===== src/Events/Values.antt =====
-- The dynamic values of an event's data, and the checks of runtime/events.py on one value. A check
-- returns the value that it was given, or raises `InvalidRunEvent` (`none`).
use governed_analytics_agent.Common.{
  ℕ, String, Bool, true, false, not, ◌&&◌, ◌||◌, Option, none, some, List, [], ◌∷◌, map, leb,
  length, if◌then◌else◌, str_eq, Dict, lookup, is_none,
}
use governed_analytics_agent.Common.Maybe.{◌>>=◌, ◌>>◌, check}
use governed_analytics_agent.Events.Identifiers.{
  safe_identifier, safe_column, safe_query_id, safe_money,
}
use governed_analytics_agent.Events.Vocabulary.{member}

-- `negative n` is the integer -(n + 1); `other` is a value of any type that no check accepts.
mutual
  pub data Value : Type 0 where
    null : Value
    text : String → Value
    num : ℕ → Value
    negative : ℕ → Value
    flag : Bool → Value
    many : Items → Value
    other : Value

  pub data Items : Type 0 where
    nil : Items
    cons : Value → Items → Items

-- Whether no text stands twice, `len(items) == len(set(items))`.
unfoldable pub distinct : List String → Bool
unfolding member
distinct [] = true
distinct (s ∷ ss) = not (member s ss) && distinct ss

abbrev pub keys {ℓ} : {V : Type ℓ} → List (String × V) → List String
keys = map (λ e. e.0)

-- `_snapshot_mapping`: a mapping whose items repeat a key is refused.
unfoldable pub snapshot_mapping : Dict Value → Option (Dict Value)
unfolding distinct
snapshot_mapping values = do check (distinct (keys values)); some values

-- `_expect_keys`: whether the two sets of keys are the same.
keys_within : List String → Dict Value → Bool
unfolding member
keys_within expected [] = true
keys_within expected ((k, v) ∷ values) = member k expected && keys_within expected values

has_keys : List String → Dict Value → Bool
has_keys [] values = true
has_keys (k ∷ ks) values = not (is_none (lookup k values)) && has_keys ks values

unfoldable pub expect_keys : Dict Value → List String → Option (Unit {0})
unfolding keys_within has_keys
expect_keys values expected = check (keys_within expected values && has_keys expected values)

-- `_enum`
unfoldable pub enum : Value → List String → Option Value
unfolding member
enum (text s) choices = if member s choices then some (text s) else none
enum _ choices = none

-- `_identifier`
unfoldable pub identifier : Value → Option Value
identifier (text s) = if safe_identifier s then some (text s) else none
identifier _ = none

unfoldable pub optional_identifier : Value → Option Value
unfolding identifier
optional_identifier null = some null
optional_identifier (text s) = identifier (text s)
optional_identifier _ = none

-- `_nonnegative_int`
unfoldable pub nonnegative_int : Value → ℕ → Option Value
nonnegative_int (num n) maximum = if leb n maximum then some (num n) else none
nonnegative_int _ maximum = none

abbrev pub default_maximum : ℕ
default_maximum = 1000000

-- `_bool`
unfoldable pub boolean : Value → Option Value
boolean (flag b) = some (flag b)
boolean _ = none

-- The texts of a tuple, all of which pass the test.
unfoldable pub texts : (String → Bool) → Items → Option (List String)
texts test nil = some []
texts test (cons (text s) items) =
    if test s then (texts test items >>= λ rest. some (s ∷ rest)) else none
texts test (cons _ items) = none

abbrev is_empty : List String → Bool
is_empty [] = true
is_empty (s ∷ ss) = false

-- `_identifier_tuple`; the length is that of the tuple, whose items all become texts.
unfoldable pub identifier_tuple : Value → ℕ → Bool → Option Value
unfolding texts distinct
identifier_tuple (many items) maximum allow_empty = do
  ss ← texts safe_identifier items
  check (leb (length ss) maximum && (allow_empty || not (is_empty ss)))
  check (distinct ss)
  some (many items)
identifier_tuple _ maximum allow_empty = none

-- `_columns`
unfoldable pub columns : Value → Option Value
unfolding texts distinct
columns (many items) = do
  ss ← texts safe_column items
  check (leb (length ss) 64)
  check (distinct ss)
  some (many items)
columns _ = none

-- `_query_id`
unfoldable pub query_id : Value → Option Value
query_id null = some null
query_id (text s) = if safe_query_id s then some (text s) else none
query_id _ = none

-- `_money`
unfoldable pub money : Value → Option Value
money (text s) = if safe_money s then some (text s) else none
money _ = none

-- `value == text` and `value is None`
unfoldable pub is_text : Value → String → Bool
is_text (text s) t = str_eq s t
is_text _ t = false

unfoldable pub is_null : Value → Bool
is_null null = true
is_null _ = false

-- The truth of a value that `_bool` returned, of a tuple, and the number of `_nonnegative_int`.
unfoldable pub is_true : Value → Bool
is_true (flag b) = b
is_true _ = false

unfoldable pub is_nonempty_tuple : Value → Bool
is_nonempty_tuple (many (cons v items)) = true
is_nonempty_tuple _ = false

unfoldable pub number : Value → ℕ
number (num n) = n
number _ = 0

-- Whether each item of a tuple is a text of the list.
unfoldable pub items_within : List String → Items → Bool
unfolding member
items_within choices nil = true
items_within choices (cons (text s) items) = member s choices && items_within choices items
items_within choices (cons _ items) = false

unfoldable pub tuple_within : List String → Value → Bool
unfolding items_within
tuple_within choices (many items) = items_within choices items
tuple_within choices _ = false
