-- ===== src/Organizations/Texts.antt =====
-- What app/models/user_models.py and app/services/org_verification_service.py use of Python's
-- texts. White space is that of ASCII.
use Prim.Native.Char.{Char, code}
use Prim.Native.String.{◌++◌}
use spoutbreeze_backend.Prelude.{
  Bool, false, List, [], ◌∷◌, String, ◌==◌, str_eq, truthy, ◌&&◌, ◌||◌, not, leb, if◌then◌else◌,
}

abbrev is_space : Char → Bool
is_space c =
    code c == 32 || (leb 9 (code c) && leb (code c) 13) || (leb 28 (code c) && leb (code c) 31)

abbrev lstrip : String → String
lstrip String.[] = ""
lstrip (String.◌∷◌ c s) = let rest = lstrip s in if is_space c then rest else String.◌∷◌ c s

abbrev rstrip : String → String
rstrip String.[] = ""
rstrip (String.◌∷◌ c s) =
    let rest = rstrip s in if is_space c && not (truthy rest) then "" else String.◌∷◌ c rest

-- `s.strip()`
abbrev pub strip : String → String
strip s = rstrip (lstrip s)

abbrev onto_first : Char → List String → List String
onto_first c [] = String.◌∷◌ c "" ∷ []
onto_first c (s ∷ ss) = String.◌∷◌ c s ∷ ss

-- `s.split(",")`
abbrev pub split : String → List String
split String.[] = "" ∷ []
split (String.◌∷◌ c s) = let rest = split s in if code c == 44 then "" ∷ rest else onto_first c rest

-- `",".join(parts)`
abbrev pub join : List String → String
join [] = ""
join (s ∷ []) = s
join (s ∷ t ∷ ts) = s ++ ("," ++ join (t ∷ ts))

-- `s in ss`
abbrev pub member : String → List String → Bool
member s [] = false
member s (t ∷ ts) = str_eq s t || member s ts
