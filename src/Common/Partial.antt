-- ===== src/Common/Partial.antt =====
-- Code that may end the process: `none` stands for the exit in `myAssert` (common/util.cpp) and for
-- a read past the end of a vector.
use mathlib.Core.Path.{◌≡◌, refl}
use mathlib.Core.Bool.{Bool, true, false}
use mathlib.Core.Option.{Option, none, some}

infixl 5 ◌>>=◌ ◌>>◌
abbrev pub ◌>>=◌ {ℓ κ} : {A : Type ℓ} {B : Type κ} → Option A → (A → Option B) → Option B
none >>= f = none
some a >>= f = f a

abbrev pub ◌>>◌ {ℓ} : {B : Type ℓ} → Option (Unit {0}) → Option B → Option B
m >> k = m >>= λ _. k

-- The first of two results that there is.
abbrev pub or_else {ℓ} : {A : Type ℓ} → Option A → Option A → Option A
or_else none o = o
or_else (some a) o = some a

-- `myAssert`: the message is not modelled.
unfoldable pub my_assert : Bool → Option (Unit {0})
my_assert true = some tt
my_assert false = none

pub my_assert_pass {ℓ} : {B : Type ℓ} (b : Bool) (k : Option B) → b ≡ true → (my_assert b >> k) ≡ k
unfolding my_assert
my_assert_pass true k h = refl
my_assert_pass false k h = cc

pub my_assert-inv {ℓ} :
    {B : Type ℓ} (b : Bool) {k : Option B} {x : B} → (my_assert b >> k) ≡ some x → k ≡ some x
unfolding my_assert
my_assert-inv true h = h
my_assert-inv false h = cc

-- Inversion of a step that did not end the process.
pub >>=-eq-some {ℓ κ} :
    {A : Type ℓ} {B : Type κ} (m : Option A) (f : A → Option B) {b : B}
    → (m >>= f) ≡ some b
    → (a : A) × (m ≡ some a) × (f a ≡ some b)
>>=-eq-some none f h = cc
>>=-eq-some (some a) f h = (a, refl, h)

pub some_inj {ℓ} : {A : Type ℓ} {a b : A} → some a ≡ some b → a ≡ b
some_inj h = cc

pub or_else-none {ℓ} : {A : Type ℓ} (o : Option A) → or_else o none ≡ o
or_else-none none = refl
or_else-none (some a) = refl

pub or_else_assoc {ℓ} :
    {A : Type ℓ} (a b c : Option A) → or_else (or_else a b) c ≡ or_else a (or_else b c)
or_else_assoc none b c = refl
or_else_assoc (some a) b c = refl
