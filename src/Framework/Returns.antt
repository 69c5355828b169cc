-- ===== src/Framework/Returns.antt =====
-- Calls that come to an end, by an exception (framework/DepthCameraException.*), a fault or a value.
use footscreen.Base.{Bool, true, false, Option, none, some, if◌then◌else◌}
use footscreen.Framework.{Result, fault, waits, thrown, done, ◌then◌, of_option}

-- A call that does not wait for ever; and what holds of its value, if it returns one.
unfoldable pub Halts : {A : Type 0} → (A → Type 0) → Result A → Type 0
Halts P fault = Unit
Halts P waits = ⊥
Halts P (thrown e) = Unit
Halts P (done a) = P a

abbrev pub Any : {A : Type 0} → A → Type 0
Any a = Unit

pub Halts-done : {A : Type 0} (P : A → Type 0) (a : A) → P a → Halts P (done a)
unfolding Halts
Halts-done P a p = p

pub Halts-fault : {A : Type 0} (P : A → Type 0) → Halts P fault
unfolding Halts
Halts-fault P = tt

pub Halts-of_option : {A : Type 0} (o : Option A) → Halts Any (of_option o)
unfolding Halts
Halts-of_option none = tt
Halts-of_option (some a) = tt

pub Halts-then :
    {A B : Type 0} (P : A → Type 0) (Q : B → Type 0) (r : Result A) (f : A → Result B)
    → Halts P r
    → ((a : A) → P a → Halts Q (f a))
    → Halts Q (r then f)
unfolding Halts ◌then◌
Halts-then P Q fault f p q = tt
Halts-then P Q waits f p q = p
Halts-then P Q (thrown e) f p q = tt
Halts-then P Q (done a) f p q = q a p

pub Halts-after :
    {A B : Type 0} (Q : B → Type 0) (r : Result A) (f : A → Result B)
    → Halts Any r
    → ((a : A) → Halts Q (f a))
    → Halts Q (r then f)
Halts-after Q r f p q = Halts-then Any Q r f p (λ a any. q a)

-- A pointer that is followed, or a fault if it is null.
pub Halts-elim :
    {A B : Type 0} (P : B → Type 0) (o : Option A) (f : A → Result B)
    → ((a : A) → Halts P (f a))
    → Halts P (elim o [ none ↦ fault | some a ↦ f a ])
unfolding Halts
Halts-elim P none f p = tt
Halts-elim P (some a) f p = p a

pub Halts-if :
    {A : Type 0} (P : A → Type 0) (b : Bool) (r s : Result A)
    → Halts P r
    → Halts P s
    → Halts P (if b then r else s)
unfolding Halts
Halts-if P true r s p q = p
Halts-if P false r s p q = q

pub Halts-weaken :
    {A : Type 0} (P Q : A → Type 0) (r : Result A) → ((a : A) → P a → Q a) → Halts P r → Halts Q r
unfolding Halts
Halts-weaken P Q fault q p = tt
Halts-weaken P Q waits q p = p
Halts-weaken P Q (thrown e) q p = tt
Halts-weaken P Q (done a) q p = q a p
