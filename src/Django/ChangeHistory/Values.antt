-- ===== src/Django/ChangeHistory/Values.antt =====
-- `json_safe`, and Python's `==` on what it returns.
use netix_backend.Prelude.{
  ℕ, suc, ◌==◌, ◌≡◌, refl, ap, ap₂, Bool, true, false, not, ◌&&◌, Option, none, some, String,
  str_eq, if◌then◌else◌,
}
use netix_backend.Prelude.Int.{ℤ, pos, eqb_ℤ}

-- A float: equal to an integer, or else given by its `repr`.
pub data PyFloat : Type 0 where
  whole : ℤ → PyFloat
  other : String → PyFloat

-- A field's value. A date or time is given by its `isoformat`, a Decimal by the float it becomes,
-- another object by its `str`; a key of a mapping by its `str`.
mutual
  pub data Value : Type 0 where
    null : Value
    bool : Bool → Value
    int : ℤ → Value
    float : PyFloat → Value
    text : String → Value
    moment : String → Value
    decimal : PyFloat → Value
    items : Values → Value
    sequence : Values → Value
    mapping : Entries → Value
    object : String → Value

  pub data Values : Type 0 where
    nil : Values
    cons : Value → Values → Values

  pub data Entries : Type 0 where
    end : Entries
    entry : String → Value → Entries → Entries

-- `items` is a list, `sequence` a tuple or a set.
unfoldable mutual
  pub json_safe : Value → Value
  json_safe null = null
  json_safe (bool b) = bool b
  json_safe (int n) = int n
  json_safe (float x) = float x
  json_safe (text s) = text s
  json_safe (moment s) = text s
  json_safe (decimal x) = float x
  json_safe (items vs) = items (json_items vs)
  json_safe (sequence vs) = items (json_items vs)
  json_safe (mapping es) = mapping (json_entries es)
  json_safe (object s) = text s

  pub json_items : Values → Values
  json_items nil = nil
  json_items (cons v vs) = cons (json_safe v) (json_items vs)

  pub json_entries : Entries → Entries
  json_entries end = end
  json_entries (entry k v es) = entry k (json_safe v) (json_entries es)

abbrev of_bool : Bool → ℤ
of_bool true = pos 1
of_bool false = pos 0

abbrev pub find : Entries → String → Option Value
find end k = none
find (entry j v es) k = if str_eq j k then some v else find es k

abbrev size : Entries → ℕ
size end = 0
size (entry k v es) = suc (size es)

abbrev found : (Value → Bool) → Option Value → Bool
found test none = false
found test (some v) = test v

abbrev same_float : PyFloat → PyFloat → Bool
same_float (whole a) (whole b) = eqb_ℤ a b
same_float (other a) (other b) = not (str_eq a "nan") && str_eq a b
same_float _ _ = false

abbrev float_is : PyFloat → ℤ → Bool
float_is (whole a) n = eqb_ℤ a n
float_is (other a) n = false

-- `==` on JSON values: True is 1 and 1.0, and the order of a mapping does not count. A nan differs
-- from every value; inside a list it does so too, where Python would take the same object as equal.
unfoldable mutual
  pub same : Value → Value → Bool
  same null null = true
  same (bool a) (bool b) = eqb_ℤ (of_bool a) (of_bool b)
  same (bool a) (int n) = eqb_ℤ (of_bool a) n
  same (int n) (bool b) = eqb_ℤ n (of_bool b)
  same (int a) (int b) = eqb_ℤ a b
  same (bool a) (float x) = float_is x (of_bool a)
  same (float x) (bool b) = float_is x (of_bool b)
  same (int n) (float x) = float_is x n
  same (float x) (int n) = float_is x n
  same (float a) (float b) = same_float a b
  same (text a) (text b) = str_eq a b
  same (items a) (items b) = same_items a b
  same (mapping a) (mapping b) = size a == size b && same_entries a b
  same _ _ = false

  pub same_items : Values → Values → Bool
  same_items nil nil = true
  same_items (cons a as') (cons b bs) = same a b && same_items as' bs
  same_items _ _ = false

  pub same_entries : Entries → Entries → Bool
  same_entries end b = true
  same_entries (entry k v es) b = found (same v) (find b k) && same_entries es b

-- `value not in (None, "", [], {})`
unfoldable pub is_blank : Value → Bool
is_blank null = true
is_blank (text s) = str_eq s ""
is_blank (items nil) = true
is_blank (mapping end) = true
is_blank _ = false

mutual
  unfolding json_safe json_items json_entries

  safe-safe : (v : Value) → json_safe (json_safe v) ≡ json_safe v
  safe-safe null = refl
  safe-safe (bool b) = refl
  safe-safe (int n) = refl
  safe-safe (float x) = refl
  safe-safe (text s) = refl
  safe-safe (moment s) = refl
  safe-safe (decimal x) = refl
  safe-safe (items vs) = ap items (items-items vs)
  safe-safe (sequence vs) = ap items (items-items vs)
  safe-safe (mapping es) = ap mapping (entries-entries es)
  safe-safe (object s) = refl

  items-items : (vs : Values) → json_items (json_items vs) ≡ json_items vs
  items-items nil = refl
  items-items (cons v vs) = ap₂ cons (safe-safe v) (items-items vs)

  entries-entries : (es : Entries) → json_entries (json_entries es) ≡ json_entries es
  entries-entries end = refl
  entries-entries (entry k v es) = ap₂ (entry k) (safe-safe v) (entries-entries es)

-- What has been made safe for JSON is stored as it is.
pub json_safe-json_safe : (v : Value) → json_safe (json_safe v) ≡ json_safe v
json_safe-json_safe v = safe-safe v
