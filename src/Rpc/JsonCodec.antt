-- ===== src/Rpc/JsonCodec.antt =====
-- gdrpc/protocol/jsonCodec.hpp: structs to and from JSON by their schemas. A struct is the tuple of the
-- members that its schema names, in that order; a schema is a list of their types and names, with
-- what the JSON library does to a value of that type. The library's values are a record of the calls
-- that the code makes, with what they do to an object. `false` stands for an exception.
pub mod Schemas
mod Tests
use gd_rpc.Base.{
  ℕ, ◌≡◌, ◌≢◌, List, [], ◌∷◌, Bool, true, false, ◌&&◌, Option, none, some, if◌then◌else◌,
}

-- `is_open`: null or an object, which `[]` can write to; a null becomes an object.
pub record Json (J : Type 0) : Type 0 where
  pub null : J
  pub is_open : J → Bool
  -- `j[name] = v`
  pub write : List ℕ → J → J → Bool × J
  -- `none` is `end()`.
  pub find : List ℕ → J → Option J
  -- `none` is an exception.
  pub at : List ℕ → J → Option J
  pub null_lem : is_open null ≡ true
  pub find_null : (name : List ℕ) → find name null ≡ none
  pub write_lem :
      (name : List ℕ) (v j : J)
      → is_open j ≡ true
      → ((write name v j).0 ≡ true)
        × (is_open (write name v j).1 ≡ true)
        × (find name (write name v j).1 ≡ some v)
        × ((k : List ℕ) → k ≢ name → find k (write name v j).1 ≡ find k j)
  pub at_lem : (name : List ℕ) (j : J) → is_open j ≡ true → at name j ≡ find name j

-- `is_optional`: the type is a `unique_ptr`. `get_to` changes a value in place.
pub record Field (J : Type 0) : Type 1 where
  pub name : List ℕ
  pub field_type : Type 0
  pub is_optional : Bool
  pub to_json : field_type → Option J
  pub get_to : J → field_type → Bool × field_type

-- What the function that visits the fields makes of a field and of what it captured.
abbrev pub Visit : Type 0 → Type 0 → Type 1
Visit J S = (f : Field J) → f.field_type → S → Bool × f.field_type × S

-- An exception leaves the rest as it is.
abbrev pub and_rest : {A B S : Type 0} → B → Bool × A × S → (S → Bool × B × S) → Bool × (A × B) × S
and_rest u (false, v, s) k = (false, (v, u), s)
and_rest u (true, v, s) k = let (ok, u', s') = k s in (ok, (v, u'), s')

module _ {J : Type 0} where
  abbrev pub Struct : List (Field J) → Type 0
  Struct [] = Unit {0}
  Struct (f ∷ fs) = f.field_type × Struct fs

  -- `ForEachField`, in the order of the schema.
  unfoldable pub for_each_field :
      {S : Type 0} → Visit J S → (fs : List (Field J)) → Struct fs → S → Bool × Struct fs × S
  for_each_field visit [] u s = (true, u, s)
  for_each_field visit (f ∷ fs) (v, u) s = and_rest u (visit f v s) (for_each_field visit fs u)

module _ {J : Type 0} (json : Json J) where
  abbrev pub write_at : (f : Field J) → f.field_type → Option J → J → Bool × f.field_type × J
  write_at f v none j = (false, v, j)
  write_at f v (some x) j = let (ok, j') = json.write f.name x j in (ok, v, j')

  -- `j[name] = field;`
  abbrev pub write_field : Visit J J
  write_field f v j = write_at f v (f.to_json v) j

  unfoldable pub to_json : (fs : List (Field J)) → Struct fs → J → Bool × J
  unfolding for_each_field
  to_json fs u j = let (ok, _, j') = for_each_field write_field fs u j in (ok, j')

  abbrev pub is_end : Option J → Bool
  is_end none = true
  is_end (some x) = false

  -- `j.at(name).get_to(field);`
  abbrev pub get_at : (f : Field J) → Option J → f.field_type → Bool × f.field_type
  get_at f none v = (false, v)
  get_at f (some x) v = f.get_to x v

  abbrev pub read_field : Visit J J
  read_field f v j =
      if f.is_optional && is_end (json.find f.name j)
      then (true, v, j)
      else (let (ok, v') = get_at f (json.at f.name j) v in (ok, v', j))

  unfoldable pub from_json : (fs : List (Field J)) → J → Struct fs → Bool × Struct fs
  unfolding for_each_field
  from_json fs j u = let (ok, u', _) = for_each_field read_field fs u j in (ok, u')
