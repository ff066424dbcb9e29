-- ===== src/Cache/Codec/RoundTrip.antt =====
-- What comes back from the cache of a value that was put there.
use spoutbreeze_backend.Prelude.{
  ◌≡◌, refl, ap, ◌∙◌, Bool, true, Option, some, String, arith, str_eq, ◌&&◌, not, Bool-cases, inl,
  inr,
}
use spoutbreeze_backend.Cache.Value.{
  Json, object, null, datetime, date, uuid, bytes, Value, none_value, bool_value, num_value,
  str_value, list_value, tuple_value, set_value, dict_value, kind_value, enum_value, str_enum_value,
  pydantic_value, sqlalchemy_value, Values, no_values, value, Columns, no_columns, column,
}
use spoutbreeze_backend.Cache.Codec.{
  Python, type_tag, to_json_safe, to_items, to_fields, get_field, all_hashable, resolve_class,
  as_pydantic, as_enum, as_sqlalchemy, with_class, from_json_safe, from_items, from_fields,
}

-- A value as it comes back: a tuple is a list, and an enum that is a text is the text.
unfoldable mutual
  pub loaded : Value → Value
  loaded none_value = none_value
  loaded (bool_value b) = bool_value b
  loaded (num_value n) = num_value n
  loaded (str_value s) = str_value s
  loaded (list_value vs) = list_value (loaded_values vs)
  loaded (tuple_value vs) = list_value (loaded_values vs)
  loaded (set_value vs) = set_value (loaded_values vs)
  loaded (dict_value cs) = dict_value (loaded_columns cs)
  loaded (kind_value k s) = kind_value k s
  loaded (enum_value m c j) = enum_value m c j
  loaded (str_enum_value m c s) = str_value s
  loaded (pydantic_value m c j) = pydantic_value m c j
  loaded (sqlalchemy_value m c cs) = sqlalchemy_value m c (loaded_columns cs)

  pub loaded_values : Values → Values
  loaded_values no_values = no_values
  loaded_values (value v vs) = value (loaded v) (loaded_values vs)

  pub loaded_columns : Columns → Columns
  loaded_columns no_columns = no_columns
  loaded_columns (column k v cs) = column k (loaded v) (loaded_columns cs)

-- No key is the tag of a type.
abbrev pub untagged : Columns → Bool
untagged no_columns = true
untagged (column k v cs) = not (str_eq k type_tag) && untagged cs

module _ (python : Python) where
  -- No mapping has the tag as a key, the classes are of the application, and Python reads what it
  -- wrote.
  unfoldable mutual
    unfolding loaded

    pub Storable : Value → Type 0
    Storable (list_value vs) = AllStorable vs
    Storable (tuple_value vs) = AllStorable vs
    Storable (set_value vs) = (all_hashable (loaded_values vs) ≡ true) × AllStorable vs
    Storable (dict_value cs) = (untagged cs ≡ true) × StorableColumns cs
    Storable (kind_value k s) = python.parse k s ≡ some s
    Storable (enum_value m c j) =
        (resolve_class python m c ≡ some (m, c))
        × ((v : Value) × ((from_json_safe python j ≡ some v) × (python.member m c v ≡ some j)))
    Storable (pydantic_value m c j) =
        (resolve_class python m c ≡ some (m, c))
        × ((v : Value) × ((from_json_safe python j ≡ some v) × (python.validate m c v ≡ some j)))
    Storable (sqlalchemy_value m c cs) =
        (resolve_class python m c ≡ some (m, c)) × (untagged cs ≡ true) × StorableColumns cs
    Storable _ = Unit

    pub AllStorable : Values → Type 0
    AllStorable no_values = Unit
    AllStorable (value v vs) = Storable v × AllStorable vs

    pub StorableColumns : Columns → Type 0
    StorableColumns no_columns = Unit
    StorableColumns (column k v cs) = Storable v × StorableColumns cs

  as_pydantic-validate :
      (m c : String) (j : Json) (o : Option Value) (v : Value)
      → o ≡ some v
      → python.validate m c v ≡ some j
      → as_pydantic python m c o ≡ some (pydantic_value m c j)
  as_pydantic-validate m c j o v h g = ground (arith, h, g)

  as_enum-member :
      (m c : String) (j : Json) (o : Option Value) (v : Value)
      → o ≡ some v
      → python.member m c v ≡ some j
      → as_enum python m c o ≡ some (enum_value m c j)
  as_enum-member m c j o v h g = ground (arith, h, g)

  get_field-untagged :
      (cs : Columns) → untagged cs ≡ true → get_field type_tag (to_fields cs) ≡ null
  unfolding to_json_safe
  get_field-untagged no_columns h = refl
  get_field-untagged (column k v cs) h = elim (Bool-cases (str_eq k type_tag)) [
    | inl g ↦ ground (arith, h, g)
    | inr g ↦ rw g (get_field-untagged cs (ground (arith, h, g)))
  ]

  mutual
    unfolding to_json_safe from_json_safe loaded Storable

    value_back : (v : Value) → Storable v → from_json_safe python (to_json_safe v) ≡ some (loaded v)
    value_back none_value s = refl
    value_back (bool_value b) s = refl
    value_back (num_value n) s = refl
    value_back (str_value t) s = refl
    value_back (list_value vs) s = rw (items_back vs s) refl
    value_back (tuple_value vs) s = rw (items_back vs s) refl
    value_back (set_value vs) s = rw (items_back vs s.1) (rw s.0 refl)
    value_back (dict_value cs) s = rw (get_field-untagged cs s.0) (rw (columns_back cs s.1) refl)
    value_back (kind_value datetime t) s = rw s refl
    value_back (kind_value date t) s = rw s refl
    value_back (kind_value uuid t) s = rw s refl
    value_back (kind_value bytes t) s = rw s refl
    value_back (enum_value m c j) s =
        let (v, p) = s.1 in
        ap (with_class python "enum" (from_json_safe python j)) s.0
        ∙ as_enum-member m c j (from_json_safe python j) v p.0 p.1
    value_back (str_enum_value m c t) s = refl
    value_back (pydantic_value m c j) s =
        let (v, p) = s.1 in
        ap (with_class python "pydantic" (from_json_safe python j)) s.0
        ∙ as_pydantic-validate m c j (from_json_safe python j) v p.0 p.1
    value_back (sqlalchemy_value m c cs) s =
        let inside : from_json_safe python (object (to_fields cs))
            ≡ some (dict_value (loaded_columns cs)) =
          rw (get_field-untagged cs s.1) (rw (columns_back cs s.2) refl) in
        ap (with_class python "sqlalchemy" (from_json_safe python (object (to_fields cs)))) s.0
        ∙ ap (as_sqlalchemy python m c) inside

    items_back :
        (vs : Values) → AllStorable vs → from_items python (to_items vs) ≡ some (loaded_values vs)
    items_back no_values s = refl
    items_back (value v vs) s = rw (value_back v s.0) (rw (items_back vs s.1) refl)

    columns_back :
        (cs : Columns)
        → StorableColumns cs
        → from_fields python (to_fields cs) ≡ some (loaded_columns cs)
    columns_back no_columns s = refl
    columns_back (column k v cs) s = rw (value_back v s.0) (rw (columns_back cs s.1) refl)
