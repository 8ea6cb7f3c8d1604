-- ===== src/Base/Json.antt =====
-- The payloads that the program marshals: what `map[string]any` holds. The order of the fields
-- carries no meaning.
use Prim.Native.String.{String}
use Prim.Native.Nat.{ℕ}
use mathlib.Core.Bool.{Bool}
use mathlib.Core.List.{List, [], ◌∷◌}

mutual
  pub data Json : Type 0 where
    bool : Bool → Json
    num : ℕ → Json
    str : String → Json
    arr : Items → Json
    obj : Fields → Json

  pub data Items : Type 0 where
    nil : Items
    cons : Json → Items → Items

  pub data Fields : Type 0 where
    end : Fields
    field : String → Json → Fields → Fields

abbrev pub fields : List (String × Json) → Fields
fields [] = end
fields ((k, v) ∷ m) = field k v (fields m)

-- an object, from its keys and values
abbrev pub object : List (String × Json) → Json
object m = obj (fields m)

-- an array of one value
abbrev pub singleton : Json → Json
singleton j = arr (cons j nil)

abbrev items : List Json → Items
items [] = nil
items (j ∷ js) = cons j (items js)

-- an array, from its values
abbrev pub list : List Json → Json
list js = arr (items js)

-- an array of texts, and an object whose values are texts
abbrev pub texts : List String → Json
texts xs = arr (text_items xs)
  where
    text_items : List String → Items
    text_items [] = nil
    text_items (x ∷ xs) = cons (str x) (text_items xs)

abbrev pub text_object : List (String × String) → Json
text_object m = obj (text_fields m)
  where
    text_fields : List (String × String) → Fields
    text_fields [] = end
    text_fields ((k, v) ∷ m) = field k (str v) (text_fields m)
