-- ===== src/Keycloak/Keys.antt =====
-- The clients' secrets survive: a Secret of an older version gets what it lacks and keeps the rest.
use data_platform_operator.Base.{
  true, false, Option, none, some, List, [], ◌∷◌, String, ◌≡◌, refl, ◌∙◌, sym, contains, insert,
  keys, lookup, lookup-insert, arith, All, ap, Bool-cases, inl, inr, eq_refl,
}
use data_platform_operator.Base.Exec.{ok}
use data_platform_operator.Base.Exec.Ends.{Ends, Ends_of, Ends-ok, Ends-pure, Ends-bind, Ends_after}
use data_platform_operator.Base.Maps.{has_key, contains-keys, contains-keys-insert}
use data_platform_operator.Controller.Known.{AnythingAfter}
use data_platform_operator.Reconciler.{Reconciler, State}
use data_platform_operator.Keycloak.Secrets.{Filled, fill, fill_random, filled_keys}
use text.Mathlib.TextEquality.{eq_iff}

abbrev pub Contents : Type 0
Contents = List (String × String)

-- Every value of the first map is in the second.
abbrev Grown : Contents → Contents → Type 0
Grown m n = (key value : String) → lookup key m ≡ some value → lookup key n ≡ some value

Grown-insert :
    (key value : String) (m : Contents)
    → contains (keys m) key ≡ false
    → Grown m (insert key value m)
Grown-insert key value m new other kept h =
    lookup-insert key other value m
    ∙ ground (arith, h, new, contains-keys other m, contains-keys key m, eq_iff key other)

found : (o : Option String) → has_key o ≡ true → (v : String) × (o ≡ some v)
found none h = absurd (ground (arith, h))
found (some v) h = (v, refl)

Grown-contains :
    (m n : Contents) (key : String)
    → Grown m n
    → contains (keys m) key ≡ true
    → contains (keys n) key ≡ true
Grown-contains m n key g h =
    let (v, q) = found (lookup key m) (sym (contains-keys key m) ∙ h) in
    contains-keys key n ∙ ap has_key (g key v q)

Grown-trans : (l m n : Contents) → Grown l m → Grown m n → Grown l n
Grown-trans l m n f g key value h = g key value (f key value h)

-- The second map has the key and every value of the first.
abbrev FilledFrom : Contents → String → Contents → Type 0
FilledFrom m key n = Grown m n × (contains (keys n) key ≡ true)

fill-FilledFrom : (key value : String) (x : Filled) → FilledFrom x.0 key (fill key value x).0
unfolding fill
fill-FilledFrom key value (m, changed) = elim (Bool-cases (contains (keys m) key)) [
  | inl has ↦ rw has (λ other kept h. h, has)
  | inr lacks ↦
      rw lacks (
        Grown-insert key value m lacks,
        contains-keys-insert key key value m ∙ rw (eq_refl key) refl,
      )
]

module _ {W C : Type 0} (r : Reconciler W C) where
  fill_random-FilledFrom :
      (key : String) (x : Filled)
      → Ends (λ s. Unit {0}) (fill_random r key x) (λ y s. FilledFrom x.0 key y.0) AnythingAfter
  unfolding fill_random
  fill_random-FilledFrom key (m, changed) = elim (Bool-cases (contains (keys m) key)) [
    | inl has ↦ rw has (Ends-pure _ (λ s h. (λ other kept q. q, has)))
    | inr lacks ↦ rw lacks (
        Ends-bind {M = λ v s. Unit {0}} _ _ (Ends_of _ (λ s a p h. tt) (λ e s. tt)) λ v.
          Ends-pure _ (λ s h.
            (Grown-insert key v m lacks, contains-keys-insert key key v m ∙ rw (eq_refl key) refl)))
  ]

  -- the map has every value that it had, and all the keys of the newer clients
  abbrev Complete : Contents → Contents → Type 0
  Complete m n =
      Grown m n
      × All (λ key. contains (keys n) key ≡ true)
          ("opaClientID" ∷ "opaClientSecret" ∷ "supersetClientID" ∷ "supersetClientSecret" ∷ [])

  complete :
      (m a b c d : Contents)
      → FilledFrom m "opaClientID" a
      → FilledFrom a "opaClientSecret" b
      → FilledFrom b "supersetClientID" c
      → FilledFrom c "supersetClientSecret" d
      → Complete m d
  complete m a b c d fa fb fc fd =
      let bd = Grown-trans b c d fc.0 fd.0 in
      let ad = Grown-trans a b d fb.0 bd in
      (
        Grown-trans m a d fa.0 ad,
        (
          Grown-contains a d _ ad fa.1,
          (Grown-contains b d _ bd fb.1, (Grown-contains c d _ fd.0 fc.1, (fd.1, tt))),
        ),
      )

  filled_keys-Complete :
      (m : Contents) → Ends (λ s. Unit {0}) (filled_keys r m) (λ x s. Complete m x.0) AnythingAfter
  unfolding filled_keys
  filled_keys-Complete m =
      let start = fill-FilledFrom "opaClientID" "opa" (m, false) in
      Ends-bind _ _ (fill_random-FilledFrom "opaClientSecret" (fill "opaClientID" "opa" (m, false)))
        λ opa. record {
          at = λ s first.
              (Ends_after _
                  (fill_random-FilledFrom "supersetClientSecret"
                    (fill "supersetClientID" "superset" opa))
                  (λ y s last.
                    complete m _ opa.0 _ y.0 start first
                      (fill-FilledFrom "supersetClientID" "superset" opa) last)).at
                s tt;
        }

  -- If the keys of an older Secret of clients are completed without an error, every value that it
  -- held is still under its key, and the keys of the OPA and Superset clients, which older
  -- versions did not write, are all there.
  pub filled_keys_complete :
      (m : Contents) (s : State W C) (x : Filled)
      → (filled_keys r m s).0 ≡ ok x
      → ((key value : String) → lookup key m ≡ some value → lookup key x.0 ≡ some value)
        × All
            (λ key. contains (keys x.0) key ≡ true)
            ("opaClientID" ∷ "opaClientSecret" ∷ "supersetClientID" ∷ "supersetClientSecret" ∷ [])
  filled_keys_complete m s x h = Ends-ok _ (filled_keys-Complete m) s tt h
