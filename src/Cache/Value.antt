-- ===== src/Cache/Value.antt =====
-- The values that app/config/redis_config.py caches, and JSON. Numbers are one kind, and an item of
-- a set stands in it once. A date, a UUID or bytes is the text that is written for it; an instance
-- of a pydantic model is its dump, and a member of an enum its value, which is written as it is:
-- with a value that is no JSON, json.dumps raises and nothing is cached. A class is named by its
-- module and its qualified name.
use Prim.Native.String.{String}
use Prim.Native.Nat.{ℕ}
use mathlib.Core.Bool.{Bool}

mutual
  pub data Json : Type 0 where
    null : Json
    boolean : Bool → Json
    number : ℕ → Json
    string : String → Json
    array : Items → Json
    object : Fields → Json

  pub data Items : Type 0 where
    no_items : Items
    item : Json → Items → Items

  pub data Fields : Type 0 where
    no_fields : Fields
    field : String → Json → Fields → Fields

-- What is written as a text under a tag of its own.
pub data Kind : Type 0 where
  datetime date uuid bytes : Kind

mutual
  pub data Value : Type 0 where
    none_value : Value
    bool_value : Bool → Value
    num_value : ℕ → Value
    str_value : String → Value
    list_value tuple_value set_value : Values → Value
    dict_value : Columns → Value
    kind_value : Kind → String → Value
    enum_value : String → String → Json → Value
    str_enum_value : String → String → String → Value
    pydantic_value : String → String → Json → Value
    sqlalchemy_value : String → String → Columns → Value

  pub data Values : Type 0 where
    no_values : Values
    value : Value → Values → Values

  pub data Columns : Type 0 where
    no_columns : Columns
    column : String → Value → Columns → Columns
