-- ===== src/Cache/Codec/Trust.antt =====
-- Which classes reading an entry of the cache can make instances of, whatever stands in the entry.
use mathlib.Core.Path.{subst}
use spoutbreeze_backend.Prelude.{
  ◌≡◌, refl, Bool, true, false, Option, none, some, String, str_eq, if◌then◌else◌, Bool-cases, inl,
  inr,
}
use spoutbreeze_backend.Cache.Value.{
  Json, null, boolean, number, string, array, object, Items, no_items, item, Fields, no_fields,
  field, Kind, datetime, date, uuid, bytes, Value, list_value, tuple_value, set_value, dict_value,
  kind_value, enum_value, str_enum_value, pydantic_value, sqlalchemy_value, Values, no_values,
  value, Columns, no_columns, column,
}
use spoutbreeze_backend.Cache.Codec.{
  Python, type_tag, value_tag, get_field, untyped, untyped_items, untyped_fields, is_allowed,
  resolve_class, all_hashable, characters, keys, iterated, set_from, parsed, as_enum, as_pydantic,
  as_sqlalchemy, built, with_class, instance_from, by_tag, from_tag, more_values, more_columns,
  list_from, from_json_safe, from_items, from_fields, from_value,
}

module _ (python : Python) where
  -- A module whose name begins with `app.` has the class under some name.
  abbrev pub Reached : String → String → Type 0
  Reached m c =
      (n : String) × (d : String) × (is_allowed n ≡ true) × (python.class_at n d ≡ some (m, c))

  -- Every instance in the value is of such a class.
  unfoldable mutual
    pub Trusted : Value → Type 0
    Trusted (list_value vs) = AllTrusted vs
    Trusted (tuple_value vs) = AllTrusted vs
    Trusted (set_value vs) = AllTrusted vs
    Trusted (dict_value cs) = TrustedColumns cs
    Trusted (enum_value m c j) = Reached m c
    Trusted (str_enum_value m c s) = Reached m c
    Trusted (pydantic_value m c j) = Reached m c
    Trusted (sqlalchemy_value m c cs) = Reached m c × TrustedColumns cs
    Trusted _ = Unit

    pub AllTrusted : Values → Type 0
    AllTrusted no_values = Unit
    AllTrusted (value v vs) = Trusted v × AllTrusted vs

    pub TrustedColumns : Columns → Type 0
    TrustedColumns no_columns = Unit
    TrustedColumns (column k v cs) = Trusted v × TrustedColumns cs

  -- The same of what reading answers, if it answers.
  abbrev pub Safe : Option Value → Type 0
  Safe none = Unit
  Safe (some v) = Trusted v

  abbrev SafeValues : Option Values → Type 0
  SafeValues none = Unit
  SafeValues (some vs) = AllTrusted vs

  abbrev SafeColumns : Option Columns → Type 0
  SafeColumns none = Unit
  SafeColumns (some cs) = TrustedColumns cs

  mutual
    unfolding untyped Trusted

    untyped_safe : (j : Json) → Trusted (untyped j)
    untyped_safe null = tt
    untyped_safe (boolean b) = tt
    untyped_safe (number n) = tt
    untyped_safe (string s) = tt
    untyped_safe (array js) = untyped_items_safe js
    untyped_safe (object fs) = untyped_fields_safe fs

    untyped_items_safe : (js : Items) → AllTrusted (untyped_items js)
    untyped_items_safe no_items = tt
    untyped_items_safe (item j js) = (untyped_safe j, untyped_items_safe js)

    untyped_fields_safe : (fs : Fields) → TrustedColumns (untyped_fields fs)
    untyped_fields_safe no_fields = tt
    untyped_fields_safe (field k j fs) = (untyped_safe j, untyped_fields_safe fs)

  characters-AllTrusted : (s : String) → AllTrusted (characters s)
  unfolding Trusted
  characters-AllTrusted String.[] = tt
  characters-AllTrusted (String.◌∷◌ c s) = (tt, characters-AllTrusted s)

  keys-AllTrusted : (fs : Fields) → AllTrusted (keys fs)
  unfolding Trusted
  keys-AllTrusted no_fields = tt
  keys-AllTrusted (field k j fs) = (tt, keys-AllTrusted fs)

  if-Safe : (b : Bool) (x y : Option Value) → Safe x → Safe y → Safe (if b then x else y)
  if-Safe true x y p q = p
  if-Safe false x y p q = q

  set_from-Safe : (o : Option Values) → SafeValues o → Safe (set_from o)
  unfolding Trusted
  set_from-Safe none p = tt
  set_from-Safe (some vs) p = if-Safe (all_hashable vs) (some (set_value vs)) none p tt

  iterated-SafeValues : (j : Json) (o : Option Value) → Safe o → SafeValues (iterated j o)
  unfolding Trusted
  iterated-SafeValues (array js) (some (list_value vs)) p = p
  iterated-SafeValues (string s) o p = characters-AllTrusted s
  iterated-SafeValues (object fs) o p = keys-AllTrusted fs
  iterated-SafeValues _ _ p = tt

  parsed-Safe : (k : Kind) (j : Json) → Safe (parsed python k j)
  unfolding Trusted
  parsed-Safe k (string s) =
      elim (python.parse k s)
        as (λ o. Safe (elim o [ none ↦ none | some t ↦ some (kind_value k t) ])) [
          | none ↦ tt
          | some t ↦ tt
        ]
  parsed-Safe k _ = tt

  module _ (m c : String) (allowed : Reached m c) where
    as_enum-Safe : (o : Option Value) → Safe (as_enum python m c o)
    unfolding Trusted
    as_enum-Safe none = tt
    as_enum-Safe (some v) =
        elim (python.member m c v)
          as (λ o. Safe (elim o [ none ↦ none | some j ↦ some (enum_value m c j) ])) [
            | none ↦ tt
            | some j ↦ allowed
          ]

    as_pydantic-Safe : (o : Option Value) → Safe (as_pydantic python m c o)
    unfolding Trusted
    as_pydantic-Safe none = tt
    as_pydantic-Safe (some v) =
        elim (python.validate m c v)
          as (λ o. Safe (elim o [ none ↦ none | some j ↦ some (pydantic_value m c j) ])) [
            | none ↦ tt
            | some j ↦ allowed
          ]

    as_sqlalchemy-Safe : (o : Option Value) → Safe o → Safe (as_sqlalchemy python m c o)
    unfolding Trusted
    as_sqlalchemy-Safe (some (dict_value cs)) p = (allowed, p)
    as_sqlalchemy-Safe _ p = tt

    built-Safe : (tag : String) (o : Option Value) → Safe o → Safe (built python tag m c o)
    built-Safe tag o p = if-Safe (str_eq tag "enum") (as_enum python m c o) _ (as_enum-Safe o) (
        if-Safe (str_eq tag "pydantic") (as_pydantic python m c o) (as_sqlalchemy python m c o)
          (as_pydantic-Safe o) (as_sqlalchemy-Safe o p))

  with_class-Safe :
      (tag n d : String) (o : Option Value) (k : Option (String × String))
      → is_allowed n ≡ true
      → python.class_at n d ≡ k
      → Safe o
      → Safe (with_class python tag o k)
  with_class-Safe tag n d o none g h p = tt
  with_class-Safe tag n d o (some k) g h p = built-Safe k.0 k.1 (n, d, g, h) tag o p

  instance_from-Safe :
      (tag : String) (j k : Json) (o : Option Value)
      → Safe o
      → Safe (instance_from python tag j k o)
  unfolding resolve_class
  instance_from-Safe tag (string m) (string c) o p = elim (Bool-cases (is_allowed m)) [
    | inl g ↦ rw g (with_class-Safe tag m c o (python.class_at m c) g refl p)
    | inr g ↦ rw g tt
  ]
  instance_from-Safe tag _ _ o p = tt

  by_tag-Safe :
      (tag : String) (fs : Fields) (o : Option Value) → Safe o → Safe (by_tag python tag fs o)
  unfolding Trusted
  by_tag-Safe tag fs o p =
      let j = get_field value_tag fs in
      let made = instance_from-Safe tag (get_field "module" fs) (get_field "class" fs) o p in
      if-Safe (str_eq tag "datetime") (parsed python datetime j) _ (parsed-Safe datetime j) (
        if-Safe (str_eq tag "date") (parsed python date j) _ (parsed-Safe date j) (
          if-Safe (str_eq tag "uuid") (parsed python uuid j) _ (parsed-Safe uuid j) (
            if-Safe (str_eq tag "bytes") (parsed python bytes j) _ (parsed-Safe bytes j) (
              if-Safe (str_eq tag "set") (set_from (iterated j o)) _
                (set_from-Safe (iterated j o) (iterated-SafeValues j o p))
                (if-Safe (str_eq tag "enum") _ _ made (
                  if-Safe (str_eq tag "pydantic") _ _ made (
                    if-Safe (str_eq tag "sqlalchemy") _ (some (dict_value (untyped_fields fs))) made
                      (untyped_fields_safe fs))))))))

  from_tag-Safe :
      (j : Json) (fs : Fields) (o : Option Value) (cs : Option Columns)
      → Safe o
      → SafeColumns cs
      → Safe (from_tag python j fs o cs)
  unfolding Trusted
  from_tag-Safe null fs o none p q = tt
  from_tag-Safe null fs o (some cs) p q = q
  from_tag-Safe (string t) fs o cs p q = by_tag-Safe t fs o p
  from_tag-Safe (boolean b) fs o cs p q = untyped_fields_safe fs
  from_tag-Safe (number n) fs o cs p q = untyped_fields_safe fs
  from_tag-Safe (array js) fs o cs p q = tt
  from_tag-Safe (object gs) fs o cs p q = tt

  list_from-Safe : (o : Option Values) → SafeValues o → Safe (list_from python o)
  unfolding Trusted
  list_from-Safe none p = tt
  list_from-Safe (some vs) p = p

  more_values-Safe :
      (o : Option Value) (vs : Option Values)
      → Safe o
      → SafeValues vs
      → SafeValues (more_values python o vs)
  unfolding Trusted
  more_values-Safe (some v) (some vs) p q = (p, q)
  more_values-Safe _ _ p q = tt

  more_columns-Safe :
      (k : String) (o : Option Value) (cs : Option Columns)
      → Safe o
      → SafeColumns cs
      → SafeColumns (more_columns python k o cs)
  unfolding Trusted
  more_columns-Safe k (some v) (some cs) p q = (p, q)
  more_columns-Safe k _ _ p q = tt

  mutual
    unfolding from_json_safe Trusted

    json-Safe : (j : Json) → Safe (from_json_safe python j)
    json-Safe null = tt
    json-Safe (boolean b) = tt
    json-Safe (number n) = tt
    json-Safe (string s) = tt
    json-Safe (array js) = list_from-Safe (from_items python js) (items-Safe js)
    json-Safe (object fs) =
        from_tag-Safe (get_field type_tag fs) fs (from_value python fs) (from_fields python fs)
          (value-Safe fs) (fields-Safe fs)

    items-Safe : (js : Items) → SafeValues (from_items python js)
    items-Safe no_items = tt
    items-Safe (item j js) =
        more_values-Safe (from_json_safe python j) (from_items python js) (json-Safe j)
          (items-Safe js)

    fields-Safe : (fs : Fields) → SafeColumns (from_fields python fs)
    fields-Safe no_fields = tt
    fields-Safe (field k j fs) =
        more_columns-Safe k (from_json_safe python j) (from_fields python fs) (json-Safe j)
          (fields-Safe fs)

    value-Safe : (fs : Fields) → Safe (from_value python fs)
    value-Safe no_fields = tt
    value-Safe (field k j fs) =
        if-Safe (str_eq k value_tag) (from_json_safe python j) (from_value python fs) (json-Safe j)
          (value-Safe fs)

  -- Whatever JSON stands in an entry of the cache, reading it fails or makes a value in which every
  -- instance, at any depth, is of a class that a module whose name begins with `app.` has under
  -- some name, be it its own or one that the module imports.
  pub from_json_safe-Trusted : (j : Json) (v : Value) → from_json_safe python j ≡ some v → Trusted v
  from_json_safe-Trusted j v h = subst Safe h (json-Safe j)
