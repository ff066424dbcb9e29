-- ===== src/Cache/Tests.antt =====
-- A row of a table, through the cache.
use spoutbreeze_backend.Prelude.{◌≡◌, refl, none, some, String, Option, str_eq, if◌then◌else◌}
use spoutbreeze_backend.Cache.Value.{
  Json, string, object, field, no_fields, uuid, Value, str_value, num_value, tuple_value, set_value,
  kind_value, enum_value, str_enum_value, sqlalchemy_value, no_values, value, no_columns, column,
}
use spoutbreeze_backend.Cache.Codec.{Python, from_json_safe}
use spoutbreeze_backend.Cache.Codec.Trust.{Trusted, from_json_safe-Trusted}

-- A module has every class, but that one of them imports a class of another library.
abbrev class_of : String → String → Option (String × String)
class_of m c = if str_eq m "app.config.redis_config" then some ("redis.asyncio", c) else some (m, c)

-- Every text is read as it stands.
abbrev python : Python
python = record {
  parse = λ k s. some s;
  class_at = class_of;
  member = λ m c v. some (string "rm");
  validate = λ m c v. none;
}

abbrev row : Value
row = sqlalchemy_value "app.models.user_models" "User" (
    column "id" (kind_value uuid "11") (
      column "status" (str_enum_value "app.models" "Status" "live") (
        column "sizes" (tuple_value (value (num_value 3) no_values))
          (column "names" (set_value (value (str_value "ana") no_values)) no_columns))))

-- An entry that names a class of the system is not read, one that names a class of the application
-- is.
abbrev entry : String → Json
entry m = object (
    field "__t" (string "enum") (
      field "module" (string m)
        (field "class" (string "Popen") (field "__v" (string "rm") no_fields))))

foreign_entry : from_json_safe python (entry "subprocess") ≡ none
unfolding from_json_safe
foreign_entry = refl

own_entry :
    from_json_safe python (entry "app.models")
    ≡ some (enum_value "app.models" "Popen" (string "rm"))
unfolding from_json_safe
own_entry = refl

from_json_safe-Trusted_example : Trusted python (enum_value "app.models" "Popen" (string "rm"))
from_json_safe-Trusted_example =
    from_json_safe-Trusted python (entry "app.models")
      (enum_value "app.models" "Popen" (string "rm")) own_entry

-- The class that an entry names need not be of the application.
imported_entry :
    from_json_safe python (entry "app.config.redis_config")
    ≡ some (enum_value "redis.asyncio" "Popen" (string "rm"))
unfolding from_json_safe
imported_entry = refl
