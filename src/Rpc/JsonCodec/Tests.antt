-- ===== src/Rpc/JsonCodec/Tests.antt =====
-- A library whose objects are chains of members, and a message with a struct in it.
use gd_rpc.Base.{
  ℕ, ◌≡◌, ◌≢◌, refl, List, [], ◌∷◌, Bool, true, false, Option, none, some, ap, if◌then◌else◌, sym,
  arith,
}
use gd_rpc.Text.{bytes_eq, bytes_eq_self, bytes_eq_iff}
use gd_rpc.Rpc.JsonCodec.{Json, Field, Struct, to_json, from_json, for_each_field}
use gd_rpc.Rpc.JsonCodec.Schemas.{
  IsOther, HasOwnNames, AllRoundTrip, from_json-to_json, struct_field, struct_field-RoundTrips,
  from_json-added,
}

-- An object ends in null.
data Sample : Type 0 where
  empty : Sample
  number : ℕ → Sample
  member : List ℕ → Sample → Sample → Sample

abbrev is_open : Sample → Bool
is_open (number n) = false
is_open _ = true

abbrev find : List ℕ → Sample → Option Sample
find k (member name v j) = let rest = find k j in if bytes_eq name k then some v else rest
find k _ = none

abbrev write : List ℕ → Sample → Sample → Bool × Sample
write name v j = if is_open j then (true, member name v j) else (false, j)

find-other : (k name : List ℕ) (v j : Sample) → k ≢ name → find k (member name v j) ≡ find k j
find-other k name v j n = ground (arith, n, bytes_eq_iff name k)

write-lem :
    (name : List ℕ) (v j : Sample)
    → is_open j ≡ true
    → ((write name v j).0 ≡ true)
      × (is_open (write name v j).1 ≡ true)
      × (find name (write name v j).1 ≡ some v)
      × ((k : List ℕ) → k ≢ name → find k (write name v j).1 ≡ find k j)
write-lem name v j h = rw (h, bytes_eq_self name) (refl, refl, refl, λ k. find-other k name v j)

abbrev sample : Json Sample
sample = record {
  null = empty;
  is_open = is_open;
  write = write;
  find = find;
  at = find;
  null_lem = refl;
  find_null = λ name. refl;
  write_lem = write-lem;
  at_lem = λ name j h. refl;
}

abbrev get_number : Sample → ℕ → Bool × ℕ
get_number (number n) old = (true, n)
get_number _ old = (false, old)

abbrev number_field : List ℕ → Bool → Field Sample
number_field name is_optional = record {
  name = name;
  field_type = ℕ;
  is_optional = is_optional;
  to_json = λ n. some (number n);
  get_to = get_number;
}

-- "id" and "kind"
abbrev schema : List (Field Sample)
schema =
    number_field (b'i' ∷ b'd' ∷ []) false ∷ number_field (b'k' ∷ b'i' ∷ b'n' ∷ b'd' ∷ []) false ∷ []

schema-HasOwnNames : HasOwnNames schema
schema-HasOwnNames = ((λ e. ground (arith, ap bytes_eq (sym e)), tt), (tt, tt))

numbers :
    (n : ℕ) → (x : Sample) × (some (number n) ≡ some x) × ((old : ℕ) → get_number x old ≡ (true, n))
numbers n = (number n, refl, λ old. refl)

schema-RoundTrip : AllRoundTrip schema
schema-RoundTrip = (numbers, (numbers, tt))

-- "seq" and "info", which has the fields of the other schema.
abbrev outer : List (Field Sample)
outer =
    number_field (b's' ∷ b'e' ∷ b'q' ∷ []) false
    ∷ struct_field sample (b'i' ∷ b'n' ∷ b'f' ∷ b'o' ∷ []) schema
    ∷ []

outer-HasOwnNames : HasOwnNames outer
unfolding struct_field
outer-HasOwnNames = ((λ e. ground (arith, ap bytes_eq (sym e)), tt), (tt, tt))

outer-RoundTrip : AllRoundTrip outer
outer-RoundTrip = (
  numbers,
  (
    struct_field-RoundTrips sample (b'i' ∷ b'n' ∷ b'f' ∷ b'o' ∷ []) schema schema-HasOwnNames
        schema-RoundTrip,
    tt,
  ),
)

abbrev message : Struct outer
unfolding struct_field
message = (7, ((1, (2, tt)), tt))

from_json-to_json_example :
    (j' : Sample) × (to_json sample outer message empty ≡ (true, j'))
    × ((old : Struct outer) → from_json sample outer j' old ≡ (true, message))
    × ((k : List ℕ) → IsOther k outer → find k j' ≡ find k empty)
from_json-to_json_example =
    from_json-to_json sample outer message empty outer-HasOwnNames outer-RoundTrip refl

-- Without "id" there is an exception, and nothing is read.
from_json-partial :
    from_json sample schema (member (b'k' ∷ b'i' ∷ b'n' ∷ b'd' ∷ []) (number 5) empty) (1, (2, tt))
    ≡ (false, (1, (2, tt)))
unfolding from_json for_each_field
from_json-partial = refl

abbrev added : Field Sample
added = number_field (b't' ∷ b't' ∷ b'l' ∷ []) true

added-IsOther : IsOther added.name schema
added-IsOther =
    (λ e. ground (arith, ap bytes_eq (sym e)), (λ e. ground (arith, ap bytes_eq (sym e)), tt))

from_json-added_example :
    (j : Sample) × (to_json sample schema (1, (2, tt)) empty ≡ (true, j))
    × (from_json sample (added ∷ schema) j (9, (0, (0, tt))) ≡ (true, (9, (1, (2, tt)))))
from_json-added_example =
    from_json-added sample schema added (1, (2, tt)) (0, (0, tt)) 9
      (added-IsOther, schema-HasOwnNames) schema-RoundTrip
