-- ===== src/Common/Outcome.antt =====
-- What a call of the C code can come to, and the monad of code that changes a state.
use mathlib.Core.Path.{◌≡◌, refl, ◌∙◌}
use mathlib.Core.Logic.{◌≢◌, ◌⊎◌, inl, inr}
use mathlib.Core.Option.{Option, none, some}
use os_cs238p_proj.Common.Tests.{if◌then◌else◌}
use mathlib.Core.Bool.{Bool}
use native.Mathlib.Omega.{arith}

-- `ret` is a return. `abort` is the end of the process, by `EXIT`, a failed `assert` or a fault.
-- `out_of_fuel` is the model's own: its bound on the rounds of a recursion was too low.
pub data Outcome {ℓ} (A : Type ℓ) : Type ℓ where
  ret : A → Outcome A
  abort : Outcome A
  out_of_fuel : Outcome A

-- Code that reads and changes a state `S`.
abbrev pub M {ℓ κ} : Type ℓ → Type κ → Type (ℓ ⊔ κ)
M S A = S → Outcome (A × S)

abbrev pub pure {ℓ κ} : {S : Type ℓ} {A : Type κ} → A → M S A
pure a s = ret (a, s)

abbrev pub stop {ℓ κ} : {S : Type ℓ} {A : Type κ} → M S A
stop s = abort

infixl 5 ◌>>=◌ ◌>>◌
abbrev pub ◌>>=◌ {ℓ κ μ} : {S : Type ℓ} {A : Type κ} {B : Type μ} → M S A → (A → M S B) → M S B
◌>>=◌ m f s = elim (m s) [ ret (a, s') ↦ f a s' | abort ↦ abort | out_of_fuel ↦ out_of_fuel ]

abbrev pub ◌>>◌ {ℓ κ} : {S : Type ℓ} {B : Type κ} → M S (Unit {0}) → M S B → M S B
m >> k = m >>= λ _. k

-- Change the state.
abbrev pub modify {ℓ} : {S : Type ℓ} → (S → S) → M S (Unit {0})
modify f s = ret (tt, f s)

abbrev pub assert {ℓ} : {S : Type ℓ} → Bool → M S (Unit {0})
assert b s = if b then ret (tt, s) else abort

-- A call that returned did so through a return of its first part.
pub >>=-eq-ret {ℓ κ μ} :
    {S : Type ℓ} {A : Type κ} {B : Type μ} (m : M S A) (f : A → M S B) (s : S) (r : B × S)
    → (m >>= f) s ≡ ret r
    → (a : A) × (t : S) × (m s ≡ ret (a, t)) × (f a t ≡ ret r)
>>=-eq-ret {S} {A} m f s r h = split (m s) refl h
  where
    split :
        (o : Outcome (A × S))
        → m s ≡ o
        → ◌>>=◌ (λ _. o) f s ≡ ret r
        → (a : A) × (t : S) × (m s ≡ ret (a, t)) × (f a t ≡ ret r)
    split (ret (a, t)) e g = (a, t, e, g)
    split abort e g = absurd (ground arith)
    split out_of_fuel e g = absurd (ground arith)

-- A chain of calls that end ends.
pub >>=-ends {ℓ κ μ} :
    {S : Type ℓ} {A : Type κ} {B : Type μ} (m : M S A) (f : A → M S B) (s : S)
    → m s ≢ out_of_fuel
    → ((a : A) (t : S) → f a t ≢ out_of_fuel)
    → (m >>= f) s ≢ out_of_fuel
>>=-ends {S} {A} {B} m f s h k = split (m s) h
  where
    split : (o : Outcome (A × S)) → o ≢ out_of_fuel → ◌>>=◌ (λ _. o) f s ≢ out_of_fuel
    split (ret (a, t)) g = k a t
    split abort g = λ e. absurd (ground arith)
    split out_of_fuel g = λ e. absurd (g refl)

-- The same, where what the first part returned is needed for the rest.
pub >>=-ends_after {ℓ κ μ} :
    {S : Type ℓ} {A : Type κ} {B : Type μ} (m : M S A) (f : A → M S B) (s : S)
    → m s ≢ out_of_fuel
    → ((a : A) (t : S) → m s ≡ ret (a, t) → f a t ≢ out_of_fuel)
    → (m >>= f) s ≢ out_of_fuel
>>=-ends_after {S} {A} {B} m f s h k = split (m s) refl
  where
    split : (o : Outcome (A × S)) → m s ≡ o → ◌>>=◌ (λ _. o) f s ≢ out_of_fuel
    split (ret (a, t)) g = k a t g
    split abort g = λ e. absurd (ground arith)
    split out_of_fuel g = λ e. absurd (h g)

-- The rest of a chain runs on what its first part returned.
pub >>=-ret {ℓ κ μ} :
    {S : Type ℓ} {A : Type κ} {B : Type μ} (m : M S A) (f : A → M S B) (s t : S) (a : A)
    → m s ≡ ret (a, t)
    → (m >>= f) s ≡ f a t
>>=-ret m f s t a e = rw (e, ◌>>=◌)

pub >>=-abort {ℓ κ μ} :
    {S : Type ℓ} {A : Type κ} {B : Type μ} (m : M S A) (f : A → M S B) (s : S)
    → m s ≡ abort
    → (m >>= f) s ≡ abort
>>=-abort m f s e = rw (e, ◌>>=◌)

-- Code that returns -1, or NULL, as soon as one of its calls does: `none` is that return.
abbrev pub or_return {ℓ κ μ} :
    {S : Type ℓ} {A : Type κ} {B : Type μ} → M S (Option A) → (A → M S (Option B)) → M S (Option B)
or_return m k s = elim (m s) [
  | ret (some a, t) ↦ k a t
  | ret (none, t) ↦ ret (none, t)
  | abort ↦ abort
  | out_of_fuel ↦ out_of_fuel
]

-- A call gives something of which `P` holds; it returns `none` only where `F` does.
abbrev pub Gives {ℓ κ μ} :
    {S : Type ℓ} {A : Type κ} → Type 0 → M S (Option A) → S → (A → S → Type μ) → Type (ℓ ⊔ κ ⊔ μ)
Gives {S} {A} F m s P =
    (F × (t : S) × (m s ≡ ret (none, t))) ⊎ ((a : A) × (t : S) × (m s ≡ ret (some a, t)) × P a t)

pub or_return-Gives {ℓ κ μ ν ξ} :
    {S : Type ℓ} {A : Type κ} {B : Type μ} {F : Type 0} (m : M S (Option A))
    (k : A → M S (Option B)) (s : S) (P : A → S → Type ν) (Q : B → S → Type ξ)
    → Gives F m s P
    → ((a : A) (t : S) → P a t → Gives F (k a) t Q)
    → Gives F (or_return m k) s Q
or_return-Gives m k s P Q (inl (f, t, e)) h = inl (f, t, rw (e, or_return) refl)
or_return-Gives m k s P Q (inr (a, t, e, p)) h = elim (h a t p) [
  | inl (f, u, g) ↦ inl (f, u, rw (e, or_return) g)
  | inr (b, u, g, q) ↦ inr (b, u, rw (e, or_return) g, q)
]

-- Two calls that come to the same
pub Gives-eq {ℓ κ μ} :
    {S : Type ℓ} {A : Type κ} {F : Type 0} (m m' : M S (Option A)) (s s' : S) (P : A → S → Type μ)
    → m s ≡ m' s'
    → Gives F m' s' P
    → Gives F m s P
Gives-eq m m' s s' P e (inl (f, t, g)) = inl (f, t, e ∙ g)
Gives-eq m m' s s' P e (inr (a, t, g, p)) = inr (a, t, e ∙ g, p)

pub Gives-map {ℓ κ μ ν} :
    {S : Type ℓ} {A : Type κ} {F : Type 0} (m : M S (Option A)) (s : S) (P : A → S → Type μ)
    (Q : A → S → Type ν)
    → Gives F m s P
    → ((a : A) (t : S) → P a t → Q a t)
    → Gives F m s Q
Gives-map m s P Q (inl x) f = inl x
Gives-map m s P Q (inr (a, t, g, p)) f = inr (a, t, g, f a t p)
