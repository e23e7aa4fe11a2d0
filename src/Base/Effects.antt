-- ===== src/Base/Effects.antt =====
-- Code that reads and writes a state: Go functions over the databases and the package variables.
-- A Go `error` is an `Option GoError`, `none` for nil; only the format string is kept of a message.
use Prim.Native.String.{String}
use mathlib.Core.Path.{◌≡◌, refl, ◌∙◌}
use mathlib.Core.List.{List, [], ◌∷◌, ◌++◌, map}
use mathlib.Core.Option.{Option, none, some}

pub data GoError : Type 0 where
  errorf : String → GoError

abbrev pub Error : Type 0
Error = Option GoError

abbrev pub Action : Type 0 → Type 0 → Type 0
Action S A = S → A × S

module _ {S : Type 0} where
  -- `for _, x := range xs { … }`, with a body that does not leave the loop.
  unfoldable pub for_each : {A : Type 0} → List A → (A → S → S) → S → S
  for_each [] body s = s
  for_each (x ∷ xs) body s = for_each xs body (body x s)

  pub for_each-append :
      {A : Type 0} (xs ys : List A) (body : A → S → S) (s : S)
      → for_each (xs ++ ys) body s ≡ for_each ys body (for_each xs body s)
  unfolding for_each
  for_each-append [] ys body s = refl
  for_each-append (x ∷ xs) ys body s = for_each-append xs ys body (body x s)

  pub for_each-map :
      {A B : Type 0} (f : A → B) (xs : List A) (body : B → S → S) (s : S)
      → for_each (map f xs) body s ≡ for_each xs (λ x. body (f x)) s
  unfolding for_each
  for_each-map f [] body s = refl
  for_each-map f (x ∷ xs) body s = for_each-map f xs body (body (f x) s)

-- A computation that may panic: `none` is a panic.
infixl 5 ◌>>=◌
unfoldable pub ◌>>=◌ : {A B : Type 0} → Option A → (A → Option B) → Option B
none >>= f = none
some a >>= f = f a

-- What no round of a loop changes, the loop does not.
pub for_each-frame :
    {S A O : Type 0} (obs : S → O) (xs : List A) (body : A → S → S) (s : S)
    → ((x : A) (t : S) → obs (body x t) ≡ obs t)
    → obs (for_each xs body s) ≡ obs s
unfolding for_each
for_each-frame obs [] body s h = refl
for_each-frame obs (x ∷ xs) body s h = for_each-frame obs xs body (body x s) h ∙ h x s
