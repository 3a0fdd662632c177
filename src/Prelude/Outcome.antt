-- ===== src/Prelude/Outcome.antt =====
-- Rust's `Result`, with an operator for `?`.
use mathlib.Core.Path.{◌≡◌, refl, subst}
use mathlib.Core.Bool.{Bool, true, false}

pub data Result {ℓ} (A E : Type ℓ) : Type ℓ where
  err : E → Result A E
  ok : A → Result A E

infixl 5 ◌>>=◌
abbrev pub ◌>>=◌ {ℓ} : {A B E : Type ℓ} (step : Result A E) (rest : A → Result B E) → Result B E
err reason >>= rest = err reason
ok value >>= rest = rest value

-- `if bad { return Err(e); }`
abbrev pub reject : {E : Type 0} (bad : Bool) (reason : E) → Result (Unit {0}) E
reject false reason = ok tt
reject true reason = err reason

-- For a step whose value nothing reads.
infixl 5 ◌>>◌
abbrev pub ◌>>◌ {ℓ} : {B E : Type ℓ} (check : Result (Unit {ℓ}) E) (rest : Result B E) → Result B E
check >> rest = check >>= (λ done. rest)

-- A successful result satisfies a predicate.
abbrev pub Ensures {ℓ κ} : {A E : Type ℓ} → (A → Type κ) → Result A E → Type κ
Ensures P (ok a) = P a
Ensures P (err e) = Unit

pub Ensures-map {ℓ κ κ'} :
    {A E : Type ℓ} (P : A → Type κ) (Q : A → Type κ') (r : Result A E)
    → ((a : A) → P a → Q a)
    → Ensures P r
    → Ensures Q r
Ensures-map P Q (ok a) f h = f a h
Ensures-map P Q (err e) f h = tt

-- `m?` and then `f` satisfies what `f` ensures of every value that `m` ensures.
pub Ensures->>= {ℓ κ κ'} :
    {A B E : Type ℓ} (P : A → Type κ) (Q : B → Type κ') (m : Result A E) (f : A → Result B E)
    → Ensures P m
    → ((a : A) → P a → Ensures Q (f a))
    → Ensures Q (m >>= f)
Ensures->>= P Q (ok a) f h then_q = then_q a h
Ensures->>= P Q (err e) f h then_q = tt

-- What follows a check may use that it passed.
pub Ensures-reject {κ} :
    {E B : Type 0} (Q : B → Type κ) (b : Bool) (e : E) (k : Result B E)
    → (b ≡ false → Ensures Q k)
    → Ensures Q (reject b e >> k)
Ensures-reject Q true e k h = tt
Ensures-reject Q false e k h = h refl

-- A statement about every success is one about the result, and back.
pub Ensures-all {ℓ κ} :
    {A E : Type ℓ} (P : A → Type κ) (r : Result A E) → ((a : A) → r ≡ ok a → P a) → Ensures P r
Ensures-all P (ok a) f = f a refl
Ensures-all P (err e) f = tt

pub Ensures-ok {ℓ κ} :
    {A E : Type ℓ} (P : A → Type κ) (r : Result A E) (a : A) → r ≡ ok a → Ensures P r → P a
Ensures-ok P r a e h = subst (Ensures P) e h

-- A successful chain, taken apart, for what follows from its parts.
pub >>=-on_ok {ℓ κ} :
    {A B E : Type ℓ} {Q : Type κ} (m : Result A E) (f : A → Result B E) {b : B}
    → (m >>= f) ≡ ok b
    → ((a : A) → m ≡ ok a → f a ≡ ok b → Q)
    → Q
>>=-on_ok (ok a) f h then_q = then_q a refl h
>>=-on_ok (err e) f h then_q = cc

-- A successful chain, taken apart.
pub >>=-eq-ok {ℓ} :
    {A B E : Type ℓ} (step : Result A E) (rest : A → Result B E) {last : B}
    → (step >>= rest) ≡ ok last
    → (value : A) × (step ≡ ok value) × (rest value ≡ ok last)
>>=-eq-ok step rest all_ok = >>=-on_ok step rest all_ok (λ value ran after. (value, ran, after))
