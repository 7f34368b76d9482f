-- ===== src/Base/Returns.antt =====
-- What a call of the firmware comes to: it returns, or it never does. A call that never returns
-- leaves the state in which it spins, until the watchdog resets the controller.
use mathlib.Core.Path.{◌≡◌, refl}
use mathlib.Core.Option.{Option, none, some}

pub data Outcome {ℓ κ} (S : Type ℓ) (A : Type κ) : Type (ℓ ⊔ κ) where
  done : A → Outcome S A
  hang : S → Outcome S A

infixl 5 ◌>>=◌
abbrev pub ◌>>=◌ {ℓ κ μ} :
    {S : Type ℓ} {A : Type κ} {B : Type μ} → Outcome S A → (A → Outcome S B) → Outcome S B
done a >>= f = f a
hang s >>= f = hang s

-- A loop that found its end within its rounds, or spins in state `s`.
abbrev pub or_hang {ℓ κ} : {S : Type ℓ} {A : Type κ} → S → Option A → Outcome S A
or_hang s none = hang s
or_hang s (some a) = done a

pub >>=-eq-done {ℓ κ μ} :
    {S : Type ℓ} {A : Type κ} {B : Type μ} (m : Outcome S A) (f : A → Outcome S B) {b : B}
    → (m >>= f) ≡ done b
    → (a : A) × (m ≡ done a) × (f a ≡ done b)
>>=-eq-done (done a) f h = (a, refl, h)
>>=-eq-done (hang s) f h = cc

pub >>=-done {ℓ κ} : {S : Type ℓ} {A : Type κ} (m : Outcome S A) → (m >>= λ a. done a) ≡ m
>>=-done (done a) = refl
>>=-done (hang s) = refl

-- How a call ends: with a result in `Q`, or, if it never returns, in a state in `P`.
abbrev pub Ends {ℓ κ μ} :
    {S : Type ℓ} {A : Type κ} → (S → Type μ) → (A → Type μ) → Outcome S A → Type μ
Ends P Q (done a) = Q a
Ends P Q (hang s) = P s

pub Ends-bind {ℓ κ κ' μ} :
    {S : Type ℓ} {A : Type κ} {B : Type κ'} (P : S → Type μ) (Q : A → Type μ) (R : B → Type μ)
    (m : Outcome S A) (f : A → Outcome S B)
    → Ends P Q m
    → ((a : A) → Q a → Ends P R (f a))
    → Ends P R (m >>= f)
Ends-bind P Q R (done a) f h k = k a h
Ends-bind P Q R (hang s) f h k = h

pub Ends-mono {ℓ κ μ ν} :
    {S : Type ℓ} {A : Type κ} (P : S → Type μ) (Q : A → Type μ) (P' : S → Type ν) (Q' : A → Type ν)
    (m : Outcome S A)
    → ((s : S) → P s → P' s)
    → ((a : A) → Q a → Q' a)
    → Ends P Q m
    → Ends P' Q' m
Ends-mono P Q P' Q' (done a) hp hq h = hq a h
Ends-mono P Q P' Q' (hang s) hp hq h = hp s h

pub or_hang-Ends {ℓ κ μ} :
    {S : Type ℓ} {A : Type κ} (P : S → Type μ) (Q : A → Type μ) (s : S) (o : Option A)
    → P s
    → ((a : A) → Q a)
    → Ends P Q (or_hang s o)
or_hang-Ends P Q s none h k = h
or_hang-Ends P Q s (some a) h k = k a
