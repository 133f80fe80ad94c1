-- ===== src/Events/Cursor.antt =====
-- `parse_last_event_id` of runtime/events.py: the resume cursor of a client, read back from an event
-- id. A header value is a list of code points.
use governed_analytics_agent.Common.{
  ℕ, zero, suc, ◌+◌, ◌/◌, ◌%◌, ◌≤◌, ◌<◌, ◌≡◌, refl, String, Bool, true, false, not, ◌&&◌, Option,
  none, some, List, [], ◌∷◌, ◌++◌, arith, ltb, ◌==◌, if◌then◌else◌, Result, ok, err, all_of,
  Bool-cases, inl, inr,
}
use governed_analytics_agent.Common.Decimal.{decimal, digits_before, value_from, value_from-decimal}
use governed_analytics_agent.Events.Identifiers.{
  codes, safe_run_id, matches_run_id, is_run_id_char, all_digits, matches_integer, before, after,
  holds,
}
use governed_analytics_agent.Events.Record.{event_id_of, max_sequence}
use governed_analytics_agent.Events.Store.{StoreError, invalid_event_cursor, event_cursor_ahead}

-- `==` of two texts.
unfoldable pub codes_eq : List ℕ → List ℕ → Bool
codes_eq [] [] = true
codes_eq (a ∷ as') (b ∷ bs) = a == b && codes_eq as' bs
codes_eq _ _ = false

-- `_CURSOR.fullmatch(value)` with its first group equal to the run id. The group holds no colon, so it
-- is the text before the first one.
unfoldable pub matches_cursor : String → List ℕ → Bool
unfolding codes_eq
matches_cursor run_id value =
    holds b':' value
    && codes_eq (before b':' value) (codes run_id)
    && matches_integer (after b':' value)

unfoldable pub parse_last_event_id : String → Option (List ℕ) → ℕ → Result StoreError (Option ℕ)
unfolding matches_cursor
parse_last_event_id run_id value high_water_mark =
    if not (safe_run_id run_id)
    then err invalid_event_cursor
    else if ltb max_sequence high_water_mark
    then err invalid_event_cursor
    else elim value [
      | none ↦ ok none
      | some text ↦
          let sequence = value_from 0 (after b':' text) in
          if not (matches_cursor run_id text)
          then err invalid_event_cursor
          else if ltb max_sequence sequence
          then err invalid_event_cursor
          else if ltb high_water_mark sequence
          then err event_cursor_ahead
          else ok (some sequence)
    ]

codes_eq_refl : (cs : List ℕ) → codes_eq cs cs ≡ true
unfolding codes_eq
codes_eq_refl [] = refl
codes_eq_refl (c ∷ cs) = ground (arith, codes_eq_refl cs)

-- A run id holds no colon, so the first colon of an event id is the one behind it.
split_at_colon :
    (cs ds : List ℕ)
    → all_of is_run_id_char cs ≡ true
    → (holds b':' (cs ++ b':' ∷ ds) ≡ true)
      × (before b':' (cs ++ b':' ∷ ds) ≡ cs)
      × (after b':' (cs ++ b':' ∷ ds) ≡ ds)
unfolding holds before after is_run_id_char
split_at_colon [] ds h = (refl, refl, refl)
split_at_colon (c ∷ cs) ds h = ground (arith, split_at_colon cs ds)

safe_run_id_chars : (cs : List ℕ) → matches_run_id cs ≡ true → all_of is_run_id_char cs ≡ true
unfolding matches_run_id
safe_run_id_chars [] h = refl
safe_run_id_chars (c ∷ cs) h = ground arith

matches_integer-digits_before :
    (fuel n : ℕ) (rest : List ℕ)
    → n < fuel
    → 0 < n
    → all_digits rest ≡ true
    → matches_integer (digits_before fuel n rest) ≡ true
unfolding matches_integer digits_before
matches_integer-digits_before zero n rest h pos d = elim h [ ]
matches_integer-digits_before (suc fuel) n rest h pos d = elim (Bool-cases (ltb n 10)) [
  | inl small ↦ ground arith
  | inr large ↦ ground (arith, matches_integer-digits_before fuel (n / 10) ((b'0' + n % 10) ∷ rest))
]

matches_integer-decimal : (n : ℕ) → matches_integer (decimal n) ≡ true
unfolding decimal matches_integer
matches_integer-decimal zero = refl
matches_integer-decimal (suc n) =
    matches_integer-digits_before (suc (suc n)) (suc n) [] (omega arith) (omega arith) refl

event_id_cursor :
    (run_id : String) (n : ℕ)
    → safe_run_id run_id ≡ true
    → (matches_cursor run_id (event_id_of run_id n) ≡ true)
      × (after b':' (event_id_of run_id n) ≡ decimal n)
unfolding matches_cursor event_id_of safe_run_id
event_id_cursor run_id n safe = ground (
  arith,
  safe_run_id_chars (codes run_id),
  split_at_colon (codes run_id) (decimal n),
  codes_eq_refl (codes run_id),
  matches_integer-decimal n,
)

-- The id of an event of a run with a safe id, up to a high-water mark that is within the sequence
-- limit, is read back as the event's sequence.
pub parse-event_id :
    (run_id : String) (n high_water_mark : ℕ)
    → safe_run_id run_id ≡ true
    → n ≤ high_water_mark
    → high_water_mark ≤ max_sequence
    → parse_last_event_id run_id (some (event_id_of run_id n)) high_water_mark ≡ ok (some n)
unfolding parse_last_event_id
parse-event_id run_id n high_water_mark safe seen bound =
    ground (arith, event_id_cursor run_id n safe, value_from-decimal n)

-- The id of an event of a run with a safe id, past the high-water mark and within the sequence limit,
-- is refused as ahead of the run.
pub parse-event_id_ahead :
    (run_id : String) (n high_water_mark : ℕ)
    → safe_run_id run_id ≡ true
    → high_water_mark < n
    → n ≤ max_sequence
    → parse_last_event_id run_id (some (event_id_of run_id n)) high_water_mark
      ≡ err event_cursor_ahead
unfolding parse_last_event_id
parse-event_id_ahead run_id n high_water_mark safe ahead bound =
    ground (arith, event_id_cursor run_id n safe, value_from-decimal n)
