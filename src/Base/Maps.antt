-- ===== src/Base/Maps.antt =====
-- Maps as association lists: their keys, and when two of them are equal.
use mathlib.Core.Path.{◌≡◌, refl}
use mathlib.Core.Bool.{Bool, true, false, ◌||◌}
use mathlib.Core.Option.{Option, none, some}
use mathlib.Core.List.{List, [], ◌∷◌}
use Prim.Native.String.{String}
use native.Mathlib.Omega.{arith}
use text.Mathlib.Text.{◌==◌}
use text.Mathlib.TextEquality.{eq_iff}
use data_platform_operator.Base.Lists.{contains, lookup, insert, keys}
use data_platform_operator.Base.Subset.{Distinct}

module _ {V : Type 0} where
  abbrev pub has_key : Option V → Bool
  has_key none = false
  has_key (some v) = true

  pub contains-keys :
      (k : String) (m : List (String × V)) → contains (keys m) k ≡ has_key (lookup k m)
  unfolding contains lookup
  contains-keys k [] = refl
  contains-keys k ((j, v) ∷ m) = ground (arith, contains-keys k m)

  pub contains-keys-insert :
      (k j : String) (v : V) (m : List (String × V))
      → contains (keys (insert k v m)) j ≡ ((k == j) || contains (keys m) j)
  unfolding contains insert
  contains-keys-insert k j v [] = refl
  contains-keys-insert k j v ((i, w) ∷ m) =
      ground (arith, contains-keys-insert k j v m, eq_iff i k, eq_iff i j, eq_iff k j)

  pub Distinct-insert :
      (k : String) (v : V) (m : List (String × V))
      → Distinct (keys m)
      → Distinct (keys (insert k v m))
  unfolding insert contains
  Distinct-insert k v [] h = (refl, tt)
  Distinct-insert k v ((j, w) ∷ m) h =
      ground (arith, Distinct-insert k v m, contains-keys-insert k j v m, eq_iff j k, eq_iff k j)
