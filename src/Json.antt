-- ===== src/Json.antt =====
-- JSON values, as `json.loads` makes and `json.dumps` takes them. Numbers are natural numbers, which
-- is what the program exchanges, or quotients of such.
use llm_inference_autoscalin.Base.{
  ℕ, String, Bool, true, false, not, Option, none, some, eqb, ◌==◌, if◌then◌else◌,
}

mutual
  pub data Json : Type 0 where
    null : Json
    bool : Bool → Json
    number : ℕ → Json
    fraction : ℕ → ℕ → Json
    text : String → Json
    array : Items → Json
    object : Fields → Json

  pub data Items : Type 0 where
    no_items : Items
    item : Json → Items → Items

  pub data Fields : Type 0 where
    no_fields : Fields
    field : String → Json → Fields → Fields

-- `bool(value)`
abbrev pub is_truthy : Json → Bool
is_truthy null = false
is_truthy (bool b) = b
is_truthy (number n) = not (eqb n 0)
is_truthy (fraction n d) = not (eqb n 0)
is_truthy (text s) = not (s == "")
is_truthy (array no_items) = false
is_truthy (array (item x xs)) = true
is_truthy (object no_fields) = false
is_truthy (object (field k v fs)) = true

-- `d.get(key)`; a missing key is `none`.
unfoldable pub get : String → Fields → Option Json
get key no_fields = none
get key (field k v fs) = if k == key then some v else get key fs
