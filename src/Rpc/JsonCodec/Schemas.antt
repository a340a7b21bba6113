-- ===== src/Rpc/JsonCodec/Schemas.antt =====
-- What is written by a schema is read back by it, and by a schema with one field more.
use gd_rpc.Base.{
  ℕ, ◌≡◌, ◌≢◌, refl, ap, ◌∙◌, List, [], ◌∷◌, true, false, none, some, if◌then◌else◌, Bool-cases,
  inl, inr,
}
use gd_rpc.Rpc.JsonCodec.{
  Json, Field, Struct, for_each_field, write_field, write_at, and_rest, to_json, get_at, read_field,
  from_json,
}

module _ {J : Type 0} where
  abbrev pub IsOther : List ℕ → List (Field J) → Type 0
  IsOther name [] = Unit {0}
  IsOther name (f ∷ fs) = (name ≢ f.name) × IsOther name fs

  abbrev pub HasOwnNames : List (Field J) → Type 0
  HasOwnNames [] = Unit {0}
  HasOwnNames (f ∷ fs) = IsOther f.name fs × HasOwnNames fs

  -- The library writes each value of the field's type, and reads it back over any other.
  abbrev pub RoundTrips : Field J → Type 0
  RoundTrips f =
      (v : f.field_type)
      → (x : J) × (f.to_json v ≡ some x) × ((old : f.field_type) → f.get_to x old ≡ (true, v))

  abbrev pub AllRoundTrip : List (Field J) → Type 0
  AllRoundTrip [] = Unit {0}
  AllRoundTrip (f ∷ fs) = RoundTrips f × AllRoundTrip fs

module _ {J : Type 0} (json : Json J) where
  -- An object has what reads as the members of a struct.
  abbrev pub Holds : (fs : List (Field J)) → Struct fs → J → Type 0
  Holds [] u j = Unit {0}
  Holds (f ∷ fs) (v, u) j =
      ((x : J) × (json.find f.name j ≡ some x)
        × ((old : f.field_type) → f.get_to x old ≡ (true, v)))
      × Holds fs u j

  abbrev Written : (fs : List (Field J)) → Struct fs → J → J → Type 0
  Written fs u j j' =
      (to_json json fs u j ≡ (true, j'))
      × (json.is_open j' ≡ true)
      × Holds fs u j'
      × ((k : List ℕ) → IsOther k fs → json.find k j' ≡ json.find k j)

  write_field_lem :
      (f : Field J) (v : f.field_type) (x j : J)
      → f.to_json v ≡ some x
      → (json.write f.name x j).0 ≡ true
      → write_field json f v j ≡ (true, v, (json.write f.name x j).1)
  write_field_lem f v x j e h =
      ap (λ o. write_at json f v o j) e ∙ (λ i. (h i, v, (json.write f.name x j).1))

  to_json_step :
      (f : Field J) (fs : List (Field J)) (v : f.field_type) (u : Struct fs) (j j' : J)
      → write_field json f v j ≡ (true, v, j')
      → to_json json (f ∷ fs) (v, u) j ≡ to_json json fs u j'
  unfolding to_json for_each_field
  to_json_step f fs v u j j' e =
      ap (λ t. let (ok, _, k) = and_rest u t (for_each_field (write_field json) fs u) in (ok, k)) e

  pub to_json_lem :
      (fs : List (Field J)) (u : Struct fs) (j : J)
      → HasOwnNames fs
      → AllRoundTrip fs
      → json.is_open j ≡ true
      → (j' : J) × Written fs u j j'
  unfolding to_json for_each_field
  to_json_lem [] u j o a h = (j, (refl, h, tt, λ k i. refl))
  to_json_lem (f ∷ fs) (v, u) j (o, os) (a, rest) h =
      let (x, e, g) = a v in
      let (ok, op, found, others) = json.write_lem f.name x j h in
      let j1 : J = (json.write f.name x j).1 in
      let (j', (e', op', holds, same)) = to_json_lem fs u j1 os rest op in
      (
        j',
        (
          to_json_step f fs v u j j1 (write_field_lem f v x j e ok) ∙ e',
          op',
          ((x, same f.name o ∙ found, g), holds),
          λ k (n, i). same k i ∙ others k n,
        ),
      )

  read_field_lem :
      (f : Field J) (v w : f.field_type) (x j : J)
      → json.is_open j ≡ true
      → json.find f.name j ≡ some x
      → f.get_to x w ≡ (true, v)
      → read_field json f w j ≡ (true, v, j)
  read_field_lem f v w x j h e g =
      let k : get_at json f (json.at f.name j) w ≡ (true, v) =
        ap (λ o. get_at json f o w) (json.at_lem f.name j h ∙ e) ∙ g in
      elim (Bool-cases f.is_optional) [ inl t ↦ rw (t, e, k) refl | inr t ↦ rw (t, k) refl ]

  from_json_step :
      (f : Field J) (fs : List (Field J)) (v w : f.field_type) (u : Struct fs) (j : J)
      → read_field json f w j ≡ (true, v, j)
      → from_json json (f ∷ fs) j (w, u) ≡ (let (ok, u') = from_json json fs j u in (ok, (v, u')))
  unfolding from_json for_each_field
  from_json_step f fs v w u j e =
      ap (λ t. let (ok, u', _) = and_rest u t (for_each_field (read_field json) fs u) in (ok, u')) e

  pub from_json_lem :
      (fs : List (Field J)) (u old : Struct fs) (j : J)
      → json.is_open j ≡ true
      → Holds fs u j
      → from_json json fs j old ≡ (true, u)
  unfolding from_json for_each_field
  from_json_lem [] u old j h s = refl
  from_json_lem (f ∷ fs) (v, u) (w, old) j h ((x, e, g), s) =
      from_json_step f fs v w old j (read_field_lem f v w x j h e (g w))
      ∙ ap (λ t. (t.0, (v, t.1))) (from_json_lem fs u old j h s)

  -- If the names of a schema are different and the library reads back what it writes of each field's
  -- type: a struct is written to null or to an object without an exception, the members of the object
  -- under other names stay, and it reads the struct back over any other.
  pub from_json-to_json :
      (fs : List (Field J)) (u : Struct fs) (j : J)
      → HasOwnNames fs
      → AllRoundTrip fs
      → json.is_open j ≡ true
      → (j' : J) × (to_json json fs u j ≡ (true, j'))
        × ((old : Struct fs) → from_json json fs j' old ≡ (true, u))
        × ((k : List ℕ) → IsOther k fs → json.find k j' ≡ json.find k j)
  from_json-to_json fs u j o a h =
      let (j', (e, op, holds, same)) = to_json_lem fs u j o a h in
      (j', e, λ old. from_json_lem fs u old j' op holds, same)

  -- A member of a type that has a schema.
  unfoldable pub struct_field : List ℕ → List (Field J) → Field J
  unfolding to_json from_json
  struct_field name fs = record {
    name = name;
    field_type = Struct fs;
    is_optional = false;
    to_json = λ u. let (ok, j) = to_json json fs u json.null in if ok then some j else none;
    get_to = from_json json fs;
  }

  -- Such a member is read back too, to any depth of structs within structs.
  pub struct_field-RoundTrips :
      (name : List ℕ) (fs : List (Field J))
      → HasOwnNames fs
      → AllRoundTrip fs
      → RoundTrips (struct_field name fs)
  unfolding struct_field
  struct_field-RoundTrips name fs o a u =
      let (j', e, back, _) = from_json-to_json fs u json.null o a json.null_lem in
      (j', ap (λ t. if t.0 then some t.1 else none) e, back)

  read_field-missing :
      (g : Field J) (w : g.field_type) (j : J)
      → json.is_open j ≡ true
      → json.find g.name j ≡ none
      → read_field json g w j ≡ (g.is_optional, w, j)
  read_field-missing g w j h e =
      let k : get_at json g (json.at g.name j) w ≡ (false, w) =
        ap (λ o. get_at json g o w) (json.at_lem g.name j h ∙ e) in
      elim (Bool-cases g.is_optional) [ inl t ↦ rw (t, e) refl | inr t ↦ rw (t, k) refl ]

  -- If the names of a schema and of another field are different and the library reads back what it
  -- writes of the schema's types: a struct is written to null without an exception, and when it is
  -- read by the schema with the other field in front, that field keeps its value and the others are
  -- read if it is optional; if not, there is an exception before any is read.
  pub from_json-added :
      (fs : List (Field J)) (g : Field J) (u old : Struct fs) (w : g.field_type)
      → HasOwnNames (g ∷ fs)
      → AllRoundTrip fs
      → (j : J) × (to_json json fs u json.null ≡ (true, j))
        × (from_json json (g ∷ fs) j (w, old)
            ≡ (g.is_optional, (w, if g.is_optional then u else old)))
  unfolding from_json for_each_field
  from_json-added fs g u old w (n, o) a =
      let (j, (e, op, holds, same)) = to_json_lem fs u json.null o a json.null_lem in
      let k = read_field-missing g w j op (same g.name n ∙ json.find_null g.name) in
      (
        j,
        e,
        elim (Bool-cases g.is_optional) [
          | inl t ↦ rw (k, t) (ap (λ r. (r.0, (w, r.1))) (from_json_lem fs u old j op holds))
          | inr t ↦ rw (k, t) refl
        ],
      )
