-- ===== src/Common/Cases.antt =====
-- A predicate on the result of a test, proved on both branches.
use mathlib.Core.Path.{◌≡◌, refl}
use mathlib.Core.Bool.{Bool, true, false}
use mathlib.Core.Option.{Option, none, some}
use ta_engine.Common.Tests.{if◌then◌else◌}

pub by_test :
    {A : Type 0} (Q : A → Type 0) (b : Bool) (x y : A)
    → (b ≡ true → Q x)
    → (b ≡ false → Q y)
    → Q (if b then x else y)
by_test Q true x y h k = h refl
by_test Q false x y h k = k refl

pub by_option :
    {A B : Type 0} (Q : A → Type 0) (o : Option B) (x : A) (f : B → A)
    → (o ≡ none → Q x)
    → ((b : B) → o ≡ some b → Q (f b))
    → Q (elim o [ none ↦ x | some b ↦ f b ])
by_option Q none x f h k = h refl
by_option Q (some b) x f h k = k b refl
