-- ===== src/Agent/Sorting.antt =====
-- `tuple(sorted(set(items)))` of texts: what it holds, and that it holds it once.
use Prim.Native.String.{compare}
use text.Mathlib.Text.{is_lt}
use governed_analytics_agent.Common.{
  ◌≡◌, refl, String, true, false, ◌||◌, List, [], ◌∷◌, if◌then◌else◌, str_eq, eq_iff, arith,
}
use governed_analytics_agent.Events.Values.{distinct}
use governed_analytics_agent.Events.Vocabulary.{member}

-- `set(items)`: each item once
unfoldable pub set_of : List String → List String
unfolding member
set_of [] = []
set_of (s ∷ ss) = if member s ss then set_of ss else s ∷ set_of ss

unfoldable pub insert_sorted : String → List String → List String
insert_sorted s [] = s ∷ []
insert_sorted s (t ∷ ts) = if is_lt (compare t s) then t ∷ insert_sorted s ts else s ∷ t ∷ ts

-- `sorted(items)`
unfoldable pub sorted : List String → List String
unfolding insert_sorted
sorted [] = []
sorted (s ∷ ss) = insert_sorted s (sorted ss)

member-insert_sorted :
    (s t : String) (ts : List String) → member s (insert_sorted t ts) ≡ (str_eq s t || member s ts)
unfolding insert_sorted member
member-insert_sorted s t [] = refl
member-insert_sorted s t (u ∷ us) = ground (arith, member-insert_sorted s t us)

pub member-sorted : (s : String) (ss : List String) → member s (sorted ss) ≡ member s ss
unfolding sorted member
member-sorted s [] = refl
member-sorted s (t ∷ ts) = ground (arith, member-insert_sorted s t (sorted ts), member-sorted s ts)

pub member-set_of : (s : String) (ss : List String) → member s (set_of ss) ≡ member s ss
unfolding set_of member
member-set_of s [] = refl
member-set_of s (t ∷ ts) = ground (arith, eq_iff s t, member-set_of s ts)

distinct-insert_sorted :
    (s : String) (ts : List String)
    → member s ts ≡ false
    → distinct ts ≡ true
    → distinct (insert_sorted s ts) ≡ true
unfolding insert_sorted distinct member
distinct-insert_sorted s [] h d = refl
distinct-insert_sorted s (t ∷ ts) h d =
    ground (arith, eq_iff s t, eq_iff t s, member-insert_sorted t s ts, distinct-insert_sorted s ts)

pub distinct-sorted : (ss : List String) → distinct ss ≡ true → distinct (sorted ss) ≡ true
unfolding sorted distinct
distinct-sorted [] d = refl
distinct-sorted (s ∷ ss) d =
    ground (arith, distinct-insert_sorted s (sorted ss), member-sorted s ss, distinct-sorted ss)

pub distinct-set_of : (ss : List String) → distinct (set_of ss) ≡ true
unfolding set_of distinct
distinct-set_of [] = refl
distinct-set_of (s ∷ ss) = ground (arith, distinct-set_of ss, member-set_of s ss)
