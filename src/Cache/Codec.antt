-- ===== src/Cache/Codec.antt =====
-- `_to_json_safe` and `_from_json_safe` of app/config/redis_config.py. Whether Python reads a text,
-- an enum or a dump of a model is a parameter. A mapping that is read fails with none, and the
-- cache then answers as if it had no entry. JSON objects hold a key once.
pub mod RoundTrip
pub mod Trust
use text.Mathlib.Text
use spoutbreeze_backend.Prelude.{
  ℕ, Bool, true, false, Option, none, some, String, str_eq, ◌&&◌, if◌then◌else◌,
}
use spoutbreeze_backend.Cache.Value.{
  Json, null, boolean, number, string, array, object, Items, no_items, item, Fields, no_fields,
  field, Kind, datetime, date, uuid, bytes, Value, none_value, bool_value, num_value, str_value,
  list_value, tuple_value, set_value, dict_value, kind_value, enum_value, str_enum_value,
  pydantic_value, sqlalchemy_value, Values, no_values, value, Columns, no_columns, column,
}

-- What the imported classes and parsers do with what is read: the text of the value that a parser
-- makes of a text, the class that a module has under a name, its own or one that it imports, the
-- value of the member that calling a class gives, and the dump of the model that is validated.
pub record Python : Type 0 where
  pub parse : Kind → String → Option String
  pub class_at : String → String → Option (String × String)
  pub member : String → String → Value → Option Json
  pub validate : String → String → Value → Option Json

-- `_TYPE_TAG` and `_VALUE_TAG`
abbrev pub type_tag : String
type_tag = "__t"

abbrev pub value_tag : String
value_tag = "__v"

abbrev pub kind_name : Kind → String
kind_name datetime = "datetime"
kind_name date = "date"
kind_name uuid = "uuid"
kind_name bytes = "bytes"

abbrev pub tagged : String → Json → Fields
tagged t j = field type_tag (string t) (field value_tag j no_fields)

abbrev pub instance_of : String → String → String → Json → Fields
instance_of t module_name class_name j = field type_tag (string t) (
    field "module" (string module_name)
      (field "class" (string class_name) (field value_tag j no_fields)))

-- `_to_json_safe`; an enum that is a text is taken for the text.
unfoldable mutual
  pub to_json_safe : Value → Json
  to_json_safe none_value = null
  to_json_safe (bool_value b) = boolean b
  to_json_safe (num_value n) = number n
  to_json_safe (str_value s) = string s
  to_json_safe (list_value vs) = array (to_items vs)
  to_json_safe (tuple_value vs) = array (to_items vs)
  to_json_safe (set_value vs) = object (tagged "set" (array (to_items vs)))
  to_json_safe (dict_value cs) = object (to_fields cs)
  to_json_safe (kind_value k s) = object (tagged (kind_name k) (string s))
  to_json_safe (enum_value m c j) = object (instance_of "enum" m c j)
  to_json_safe (str_enum_value m c s) = string s
  to_json_safe (pydantic_value m c j) = object (instance_of "pydantic" m c j)
  to_json_safe (sqlalchemy_value m c cs) =
      object (instance_of "sqlalchemy" m c (object (to_fields cs)))

  pub to_items : Values → Items
  to_items no_values = no_items
  to_items (value v vs) = item (to_json_safe v) (to_items vs)

  pub to_fields : Columns → Fields
  to_fields no_columns = no_fields
  to_fields (column k v cs) = field k (to_json_safe v) (to_fields cs)

-- `obj.get(key)`, null when it is missing.
abbrev pub get_field : String → Fields → Json
get_field k no_fields = null
get_field k (field j v fs) = let rest = get_field k fs in if str_eq j k then v else rest

-- An object whose tag is unknown is answered as it is.
unfoldable mutual
  pub untyped : Json → Value
  untyped null = none_value
  untyped (boolean b) = bool_value b
  untyped (number n) = num_value n
  untyped (string s) = str_value s
  untyped (array js) = list_value (untyped_items js)
  untyped (object fs) = dict_value (untyped_fields fs)

  pub untyped_items : Items → Values
  untyped_items no_items = no_values
  untyped_items (item j js) = value (untyped j) (untyped_items js)

  pub untyped_fields : Fields → Columns
  untyped_fields no_fields = no_columns
  untyped_fields (field k j fs) = column k (untyped j) (untyped_fields fs)

-- What can be an item of a set; models are not frozen.
abbrev hashable : Value → Bool
hashable (list_value vs) = false
hashable (set_value vs) = false
hashable (dict_value cs) = false
hashable (pydantic_value m c j) = false
hashable _ = true

abbrev pub all_hashable : Values → Bool
all_hashable no_values = true
all_hashable (value v vs) = hashable v && all_hashable vs

abbrev pub characters : String → Values
characters String.[] = no_values
characters (String.◌∷◌ c s) = value (str_value (String.◌∷◌ c "")) (characters s)

abbrev pub keys : Fields → Values
keys no_fields = no_values
keys (field k j fs) = value (str_value k) (keys fs)

-- The items of what stands under the tag of a set, given as it is and decoded.
abbrev pub iterated : Json → Option Value → Option Values
iterated (array js) (some (list_value vs)) = some vs
iterated (string s) v = some (characters s)
iterated (object fs) v = some (keys fs)
iterated _ _ = none

abbrev pub set_from : Option Values → Option Value
set_from none = none
set_from (some vs) = if all_hashable vs then some (set_value vs) else none

-- `_ALLOWED_DESERIALIZE_PREFIXES`
abbrev pub is_allowed : String → Bool
is_allowed m = Text.starts_with m "app."

module _ (python : Python) where
  abbrev pub parsed : Kind → Json → Option Value
  parsed k (string s) = elim (python.parse k s) [ none ↦ none | some t ↦ some (kind_value k t) ]
  parsed k _ = none

  -- `_resolve_class`
  unfoldable pub resolve_class : String → String → Option (String × String)
  resolve_class m c = if is_allowed m then python.class_at m c else none

  abbrev pub as_enum : String → String → Option Value → Option Value
  as_enum m c none = none
  as_enum m c (some v) = elim (python.member m c v) [
    | none ↦ none
    | some j ↦ some (enum_value m c j)
  ]

  abbrev pub as_pydantic : String → String → Option Value → Option Value
  as_pydantic m c none = none
  as_pydantic m c (some v) = elim (python.validate m c v) [
    | none ↦ none
    | some j ↦ some (pydantic_value m c j)
  ]

  abbrev pub as_sqlalchemy : String → String → Option Value → Option Value
  as_sqlalchemy m c (some (dict_value cs)) = some (sqlalchemy_value m c cs)
  as_sqlalchemy m c _ = none

  -- What is made with `cls`, for one of the three tags; any class can be called under the first.
  abbrev pub built : String → String → String → Option Value → Option Value
  built tag m c v =
      if str_eq tag "enum"
      then as_enum m c v
      else if str_eq tag "pydantic"
      then as_pydantic m c v
      else as_sqlalchemy m c v

  abbrev pub with_class : String → Option Value → Option (String × String) → Option Value
  with_class tag v none = none
  with_class tag v (some k) = built tag k.0 k.1 v

  abbrev pub instance_from : String → Json → Json → Option Value → Option Value
  instance_from tag (string m) (string c) v = with_class tag v (resolve_class m c)
  instance_from tag _ _ v = none

  -- The branches on the tag: what stands under the value tag, as it is and decoded.
  abbrev pub by_tag : String → Fields → Option Value → Option Value
  by_tag tag fs v =
      let j = get_field value_tag fs in
      if str_eq tag "datetime"
      then parsed datetime j
      else if str_eq tag "date"
      then parsed date j
      else if str_eq tag "uuid"
      then parsed uuid j
      else if str_eq tag "bytes"
      then parsed bytes j
      else if str_eq tag "set"
      then set_from (iterated j v)
      else if str_eq tag "enum"
      then instance_from tag (get_field "module" fs) (get_field "class" fs) v
      else if str_eq tag "pydantic"
      then instance_from tag (get_field "module" fs) (get_field "class" fs) v
      else if str_eq tag "sqlalchemy"
      then instance_from tag (get_field "module" fs) (get_field "class" fs) v
      else some (dict_value (untyped_fields fs))

  -- A tag that is no text: a mapping without one, or one that cannot be looked up in a set.
  abbrev pub from_tag : Json → Fields → Option Value → Option Columns → Option Value
  from_tag null fs v none = none
  from_tag null fs v (some cs) = some (dict_value cs)
  from_tag (string t) fs v cs = by_tag t fs v
  from_tag (boolean b) fs v cs = some (dict_value (untyped_fields fs))
  from_tag (number n) fs v cs = some (dict_value (untyped_fields fs))
  from_tag (array js) fs v cs = none
  from_tag (object gs) fs v cs = none

  abbrev pub more_values : Option Value → Option Values → Option Values
  more_values (some v) (some vs) = some (value v vs)
  more_values _ _ = none

  abbrev pub more_columns : String → Option Value → Option Columns → Option Columns
  more_columns k (some v) (some cs) = some (column k v cs)
  more_columns k _ _ = none

  abbrev pub list_from : Option Values → Option Value
  list_from none = none
  list_from (some vs) = some (list_value vs)

  -- `_from_json_safe`
  unfoldable mutual
    unfolding resolve_class untyped

    pub from_json_safe : Json → Option Value
    from_json_safe null = some none_value
    from_json_safe (boolean b) = some (bool_value b)
    from_json_safe (number n) = some (num_value n)
    from_json_safe (string s) = some (str_value s)
    from_json_safe (array js) = list_from (from_items js)
    from_json_safe (object fs) =
        from_tag (get_field type_tag fs) fs (from_value fs) (from_fields fs)

    pub from_items : Items → Option Values
    from_items no_items = some no_values
    from_items (item j js) = more_values (from_json_safe j) (from_items js)

    pub from_fields : Fields → Option Columns
    from_fields no_fields = some no_columns
    from_fields (field k j fs) = more_columns k (from_json_safe j) (from_fields fs)

    -- The decoded value under the value tag.
    pub from_value : Fields → Option Value
    from_value no_fields = some none_value
    from_value (field k j fs) =
        let this = from_json_safe j in
        let rest = from_value fs in if str_eq k value_tag then this else rest
