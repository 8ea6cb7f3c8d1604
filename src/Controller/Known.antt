-- ===== src/Controller/Known.antt =====
-- What is known of conditions: lists of facts, each a condition that is true where a Boolean is.
use data_platform_operator.Base.{Bool, true, false, List, [], ◌∷◌, String, ◌==◌, ◌≡◌, All, arith}
use data_platform_operator.Base.Exec.{Error, ok, Exec}
use data_platform_operator.Base.Exec.Ends.{
  Ends, Ends_of, Ends-ok, Ends-pure, Ends-raise, Ends-gets, Ends-branch, Ends-bind,
}
use data_platform_operator.Api.Platform.{DataPlatform}
use data_platform_operator.Kube.{ConditionLaws}
use data_platform_operator.Reconciler.{Reconciler, State}
use data_platform_operator.Cluster.{marking, set_condition, condition_true}
use data_platform_operator.Cluster.Frame.{Is, Keeps-set_condition}
use data_platform_operator.Controller.Parts.{Owns}
use data_platform_operator.Controller.Ready.{Ends-set_condition}

abbrev pub Facts : Type 0
Facts = List (Bool × String)

-- The facts are about other conditions than `own`.
abbrev pub Apart : String → Facts → Type 0
Apart own = All (λ f. (own == f.1) ≡ false)

abbrev pub AnythingAfter : {S : Type 0} → Error → S → Type 0
AnythingAfter e s = Unit {0}

module _ {W C : Type 0} (r : Reconciler W C) where
  abbrev pub Known : Facts → State W C → Type 0
  Known fs s = All (λ f. f.0 ≡ true → Is r f.1 true s) fs

  -- An action that touches the condition `own` only keeps what is known of the others.
  Known-kept :
      {A : Type 0} (own : String) (m : Exec (State W C) A) (fs : Facts)
      → Owns r own m
      → Apart own fs
      → (s : State W C) → Known fs s
      → Known fs (m s).1
  Known-kept own m [] owns apart s k = tt
  Known-kept own m (f ∷ fs) owns (a, apart) s (h, k) =
      (λ b. (owns f.1 true a).at s (h b), Known-kept own m fs owns apart s k)

  pub Ends-Known :
      {A : Type 0} (own : String) (m : Exec (State W C) A) (fs : Facts)
      → Owns r own m
      → Apart own fs
      → Ends (Known fs) m (λ a s. Known fs s) AnythingAfter
  Ends-Known own m fs owns apart =
      Ends_of m (λ s a k h. Known-kept own m fs owns apart s k) (λ e s. tt)

  -- One that adds a fact about the condition that it touches.
  pub Ends_learnt :
      {A : Type 0} (own : String) (m : Exec (State W C) A) (ready : A → Bool) (fs : Facts)
      → Owns r own m
      → Apart own fs
      → ((s : State W C) (a : A) → (m s).0 ≡ ok a → ready a ≡ true → Is r own true (m s).1)
      → Ends (Known fs) m (λ a s. Known ((ready a, own) ∷ fs) s) AnythingAfter
  Ends_learnt own m ready fs owns apart reports =
      Ends_of m (λ s a k h. (reports s a h, Known-kept own m fs owns apart s k)) (λ e s. tt)

-- the same Boolean for each of these conditions
abbrev pub at_once : Bool → List String → Facts
at_once b [] = []
at_once b (t ∷ ts) = (b, t) ∷ at_once b ts

module _ {W C : Type 0} (r : Reconciler W C) where
  pub Known-never : (ts : List String) (s : State W C) → Known r (at_once false ts) s
  Known-never [] s = tt
  Known-never (t ∷ ts) s = (λ h. ground (arith, h), Known-never ts s)

  pub condition_true_learnt :
      (t : String) (fs : Facts)
      → Ends (Known r fs) (condition_true r t) (λ b s. Known r ((b, t) ∷ fs) s) AnythingAfter
  unfolding condition_true
  condition_true_learnt t fs = Ends-gets _ (λ s k. (λ h. h, k))

  module _ (dp : DataPlatform) where
    -- what an action says of its end without an error, it says also when its errors are marked
    pub Ends-marking :
        {A : Type 0} {P : State W C → Type 0} {G : A → State W C → Type 0} (t reason : String)
        (m : Exec (State W C) A)
        → Ends P m G AnythingAfter
        → Ends P (marking r dp t reason m) G AnythingAfter
    unfolding marking
    Ends-marking t reason m em =
        Ends-branch m _ _ em (λ a. Ends-pure a (λ s h. h))
          λ e.
            Ends-bind {M = λ u s. Unit {0}} _ _ (Ends_of _ (λ s a p h. tt) (λ e s. tt))
              λ u. Ends-raise e (λ s h. tt)

    pub set_condition_learnt :
        (laws : ConditionLaws r.condition_api) (t reason message : String) (fs : Facts)
        → Apart t fs
        → Ends
            (Known r fs)
            (set_condition r dp t true reason message)
            (λ u s. Known r ((true, t) ∷ fs) s)
            AnythingAfter
    set_condition_learnt laws t reason message fs apart =
        Ends_learnt r t _ (λ u. true) fs
          (λ t' b other. Keeps-set_condition r dp laws t true reason message t' b other) apart
          (λ s a h q.
            Ends-ok {P = λ s. Unit {0}} {G = λ u s. Is r t true s} {B = AnythingAfter} _
              (Ends-set_condition r laws dp t true reason message) s tt h)
