-- ===== src/Json.antt =====
-- What `json.loads` returns, as the Python values that the program reads. A number is kept as its
-- `repr`, with whether it is zero; an object has each key once, in the order of the dict.

use whatsapp_automatic_plann.Prelude.{Bool, true, false, String, List, [], ◌∷◌, ◌==◌, if◌then◌else◌}
use whatsapp_automatic_plann.Errors.{Result, ok, err, attribute_error, type_error}

mutual
  pub data Json : Type 0 where
    null : Json
    bool : Bool → Json
    number : Bool → String → Json
    str : String → Json
    arr : Items → Json
    obj : Fields → Json

  pub data Items : Type 0 where
    nil : Items
    cons : Json → Items → Items

  pub data Fields : Type 0 where
    end : Fields
    field : String → Json → Fields → Fields

-- The items of an array.
abbrev pub items : Items → List Json
items nil = []
items (cons j js) = j ∷ items js

-- The keys of an object, over which it is iterated.
abbrev pub keys : Fields → List Json
keys end = []
keys (field k _ fs) = str k ∷ keys fs

-- The characters of a text, over which it is iterated.
abbrev pub characters : String → List Json
characters String.[] = []
characters (String.◌∷◌ c s) = str (String.◌∷◌ c String.[]) ∷ characters s

-- `for x in value`
abbrev pub iterate : Json → Result (List Json)
iterate (arr js) = ok (items js)
iterate (obj fs) = ok (keys fs)
iterate (str s) = ok (characters s)
iterate _ = err type_error

-- `d.get(key, default)` of a dict.
abbrev pub get_default : String → Json → Fields → Json
get_default key default end = default
get_default key default (field k j fs) = if key == k then j else get_default key default fs

-- `d.get(key)` of a dict.
abbrev pub get : String → Fields → Json
get key fs = get_default key null fs

-- `key in d` of a dict.
abbrev pub has_key : String → Fields → Bool
has_key key end = false
has_key key (field k _ fs) = if key == k then true else has_key key fs

-- `value.get(key, default)` of any value: only a dict has the method.
abbrev pub get_of : String → Json → Json → Result Json
get_of key default (obj fs) = ok (get_default key default fs)
get_of key default _ = err attribute_error

-- `value or {}`
abbrev pub or_empty : Json → Json
or_empty null = obj end
or_empty (bool b) = if b then bool true else obj end
or_empty (number is_zero repr) = if is_zero then obj end else number is_zero repr
or_empty (str s) = if s == "" then obj end else str s
or_empty (arr nil) = obj end
or_empty (arr (cons j js)) = arr (cons j js)
or_empty (obj fs) = obj fs

-- `str(value)`; the `repr` of a value that is no text is a parameter.
abbrev pub to_str : (Json → String) → Json → String
to_str repr (str s) = s
to_str repr j = repr j
