-- ===== src/Protocol/Values.antt =====
-- What JSON.parse gives, as the validators of `unknown` parameters see it; an object is the list of
-- its entries. `fraction` stands for every number that is no integer.
use latticeag_gateway.Base.{
  String, Bool, true, ◌&&◌, Option, none, some, List, [], ◌∷◌, ◌=ₛ◌, if◌then◌else◌, includes,
}
use latticeag_gateway.Base.Int.{ℤ}

mutual
  pub data Value : Type 0 where
    null : Value
    bool : Bool → Value
    int : ℤ → Value
    fraction : Value
    str : String → Value
    obj : Fields → Value
    arr : Items → Value

  pub data Fields : Type 0 where
    end : Fields
    field : String → Value → Fields → Fields

  pub data Items : Type 0 where
    nil : Items
    cons : Value → Items → Items

-- `typeof v === "object" && v !== null && !Array.isArray(v)`
abbrev pub as_object : Value → Option Fields
as_object (obj o) = some o
as_object _ = none

abbrev pub as_string : Value → Option String
as_string (str s) = some s
as_string _ = none

abbrev pub as_int : Value → Option ℤ
as_int (int n) = some n
as_int _ = none

-- `Object.keys(o)`
abbrev pub keys : Fields → List String
keys end = []
keys (field k v o) = k ∷ keys o

-- `o[k]`, where `none` is `undefined`.
abbrev pub at_key : String → Fields → Option Value
at_key k end = none
at_key k (field j v o) = if j =ₛ k then some v else at_key k o

-- `o[k]` where it is a string.
abbrev pub string_at : String → Fields → Option String
string_at k o = elim (at_key k o) [ none ↦ none | some v ↦ as_string v ]

-- `for (const k of Object.keys(o)) if (!allowed.includes(k)) …`
abbrev pub only_keys : Fields → List String → Bool
only_keys end allowed = true
only_keys (field k v o) allowed = includes allowed k && only_keys o allowed

-- `for (const k of required) if (!(k in o)) …`
abbrev pub has_keys : List String → Fields → Bool
has_keys [] o = true
has_keys (k ∷ ks) o = includes (keys o) k && has_keys ks o
