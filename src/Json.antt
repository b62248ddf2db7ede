-- ===== src/Json.antt =====
-- The JSON values that the sources exchange, and Python's `json` module as an interface.
use sonic_device_health_prtm.Prelude.{
  Option, none, some, Bool, true, false, String, ◌≡◌, ltb, if◌then◌else◌, str_eq, Result, err,
  PyError, or_raise, ok, or_else, ◌>>=◌,
}
use sonic_device_health_prtm.Prelude.Int.{ℤ, pos, negsuc}

mutual
  pub data Json : Type 0 where
    null : Json
    bool : Bool → Json
    int : ℤ → Json
    text : String → Json
    arr : Items → Json
    obj : Fields → Json

  pub data Items : Type 0 where
    nil : Items
    cons : Json → Items → Items

  pub data Fields : Type 0 where
    end : Fields
    field : String → Json → Fields → Fields

-- `d.get(k)` of a JSON object.
unfoldable pub find : String → Fields → Option Json
find k end = none
find k (field j v fs) = if str_eq j k then some v else find k fs

-- `d[k]` of a JSON object.
unfoldable pub item : String → Fields → Result Json
item k fs = or_raise (find k fs) (PyError.key_error k)

-- `v[k]` of a loaded value: only an object is indexed by text.
unfoldable pub index : String → Json → Result Json
unfolding item
index k (obj fs) = item k fs
index k other = err PyError.type_error

-- `v.get(k)` of a loaded value: only an object has the method.
abbrev pub get : String → Json → Result (Option Json)
get k (obj fs) = ok (find k fs)
get k other = err (PyError.attribute_error "get")

-- `v.get(k, d)`
abbrev pub get_or : Json → String → Json → Result Json
get_or d k v = get k v >>= λ found. ok (or_else found d)

-- The truth value of a value.
abbrev pub truthy : Json → Bool
truthy null = false
truthy (bool b) = b
truthy (int (pos n)) = ltb 0 n
truthy (int (negsuc _)) = true
truthy (text s) = if str_eq s "" then false else true
truthy (arr nil) = false
truthy (arr (cons _ _)) = true
truthy (obj end) = false
truthy (obj (field _ _ _)) = true

-- `json.dumps` and `json.loads`. `Text` stands for the byte strings that the processes exchange.
-- A dumped text is not empty and loads back; the empty text does not load.
pub record JsonModule : Type 1 where
  pub Text : Type 0
  pub empty : Text
  pub is_empty : Text → Bool
  pub dumps : Json → Text
  pub loads : Text → Option Json
  pub loads-dumps : (j : Json) → loads (dumps j) ≡ some j
  pub dumps_nonempty : (j : Json) → is_empty (dumps j) ≡ false
  pub empty_is_empty : is_empty empty ≡ true
  pub loads-empty : loads empty ≡ none
