-- ===== src/Events/Idempotent/Rules.antt =====
-- A check returns the value that it was given, so the same check passes on what it returned; and
-- the rule for a chain of checks.
use governed_analytics_agent.Common.{
  ℕ, ◌≡◌, String, Bool, true, Option, none, some, List, ◌∷◌, arith, Dict, lookup, refl,
  Option-cases, inl, inr,
}
use governed_analytics_agent.Common.Maybe.{◌>>=◌}
use governed_analytics_agent.Events.Values.{
  Value, many, enum, identifier, optional_identifier, nonnegative_int, boolean, identifier_tuple,
  columns, query_id, money, is_null, distinct, keys,
}
use governed_analytics_agent.Events.Vocabulary.{analysis_tools}
use governed_analytics_agent.Events.Freeze.{optional_enum, validate_tool_identity}

-- What was frozen freezes to itself, and holds each key once.
pub data Settles (g : Dict Value → Option (Dict Value)) : Option (Dict Value) → Type 0 where
  refused : Settles g none
  frozen : (f : Dict Value) → (g f ≡ some f) × (distinct (keys f) ≡ true) → Settles g (some f)

pub settles :
    {A : Type 0} {g : Dict Value → Option (Dict Value)} (o : Option A) (k : A → Option (Dict Value))
    → ((a : A) → o ≡ some a → Settles g (k a))
    → Settles g (o >>= k)
unfolding ◌>>=◌
settles none k h = refused
settles (some a) k h = h a refl

pub Settles_frozen :
    (g : Dict Value → Option (Dict Value)) {o : Option (Dict Value)} {f : Dict Value}
    → Settles g o
    → o ≡ some f
    → (g f ≡ some f) × (distinct (keys f) ≡ true)
Settles_frozen g refused e = cc
Settles_frozen g (frozen f s) e = ground arith

pub enum_kept :
    (o : Option Value) (cs : List String) {w : Value}
    → (o >>= λ v. enum v cs) ≡ some w
    → enum w cs ≡ some w
unfolding ◌>>=◌ enum
enum_kept o cs h = ground arith

pub identifier_kept :
    (o : Option Value) {w : Value} → (o >>= identifier) ≡ some w → identifier w ≡ some w
unfolding ◌>>=◌ identifier
identifier_kept o h = ground arith

pub optional_identifier_kept :
    (o : Option Value) {w : Value}
    → (o >>= optional_identifier) ≡ some w
    → optional_identifier w ≡ some w
unfolding ◌>>=◌ optional_identifier
optional_identifier_kept o h = ground arith

pub optional_enum_kept :
    (o : Option Value) (cs : List String) {w : Value}
    → (o >>= λ v. optional_enum v cs) ≡ some w
    → optional_enum w cs ≡ some w
unfolding ◌>>=◌ optional_enum enum is_null
optional_enum_kept o cs h = ground arith

pub nonnegative_int_kept :
    (o : Option Value) (n : ℕ) {w : Value}
    → (o >>= λ v. nonnegative_int v n) ≡ some w
    → nonnegative_int w n ≡ some w
unfolding ◌>>=◌ nonnegative_int
nonnegative_int_kept o n h = ground arith

pub boolean_kept : (o : Option Value) {w : Value} → (o >>= boolean) ≡ some w → boolean w ≡ some w
unfolding ◌>>=◌ boolean
boolean_kept o h = ground arith

identifier_tuple_same :
    (v : Value) (n : ℕ) (b : Bool) {w : Value} → identifier_tuple v n b ≡ some w → w ≡ v
unfolding ◌>>=◌ identifier_tuple
identifier_tuple_same (many items) n b h = ground arith
identifier_tuple_same _ n b h = cc

pub identifier_tuple_kept :
    (o : Option Value) (n : ℕ) (b : Bool) {w : Value}
    → (o >>= λ v. identifier_tuple v n b) ≡ some w
    → identifier_tuple w n b ≡ some w
unfolding ◌>>=◌
identifier_tuple_kept none n b h = cc
identifier_tuple_kept (some v) n b h =
    rw (identifier_tuple_same v n b h) (rw (identifier_tuple_same v n b h) at h)

columns_same : (v : Value) {w : Value} → columns v ≡ some w → w ≡ v
unfolding ◌>>=◌ columns
columns_same (many items) h = ground arith
columns_same _ h = cc

pub columns_kept : (o : Option Value) {w : Value} → (o >>= columns) ≡ some w → columns w ≡ some w
unfolding ◌>>=◌
columns_kept none h = cc
columns_kept (some v) h = rw (columns_same v h) (rw (columns_same v h) at h)

pub query_id_kept : (o : Option Value) {w : Value} → (o >>= query_id) ≡ some w → query_id w ≡ some w
unfolding ◌>>=◌ query_id
query_id_kept o h = ground arith

pub money_kept : (o : Option Value) {w : Value} → (o >>= money) ≡ some w → money w ≡ some w
unfolding ◌>>=◌ money
money_kept o h = ground arith

pub tool_identity_kept :
    (d : Dict Value) (i : Value × Value) (rest : Dict Value)
    → validate_tool_identity d ≡ some i
    → validate_tool_identity (("tool_name", i.0) ∷ ("purpose", i.1) ∷ rest) ≡ some i
unfolding ◌>>=◌ validate_tool_identity
tool_identity_kept d i rest h =
    elim (Option-cases (lookup "tool_name" d >>= λ v. enum v analysis_tools)) [
      | inl no_tool ↦ absurd (ground arith)
      | inr (t, et) ↦ elim (Option-cases (lookup "purpose" d >>= identifier)) [
        | inl no_purpose ↦ absurd (ground arith)
        | inr (p, ep) ↦ ground (
          arith,
          enum_kept (lookup "tool_name" d) analysis_tools et,
          identifier_kept (lookup "purpose" d) ep,
        )
      ]
    ]
