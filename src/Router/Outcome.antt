-- ===== src/Router/Outcome.antt =====
-- How a call of the router ends: with a result, with an access to memory that is not there, or not
-- while the fuel lasts.
use teme_pcom_anul_2_sem.Prelude.{ℕ, ◌≡◌, ◌⊎◌, inl, inr, refl, List, Option, none, some, get_elem?}
use teme_pcom_anul_2_sem.Router.Route.{RtableEntry, found, outside, unfinished, get_best_route}

pub data Outcome {ℓ} (A : Type ℓ) : Type ℓ where
  done : A → Outcome A
  fault : Outcome A
  endless : Outcome A

infixl 5 ◌>>=◌
abbrev pub ◌>>=◌ {ℓ κ} : {A : Type ℓ} {B : Type κ} → Outcome A → (A → Outcome B) → Outcome B
m >>= f = elim m [ done a ↦ f a | fault ↦ fault | endless ↦ endless ]

abbrev pub or_fault {ℓ} : {A : Type ℓ} → Option A → Outcome A
or_fault none = fault
or_fault (some a) = done a

-- The route that `get_best_route` points at, `none` for NULL; the search has `rounds` rounds.
abbrev pub best_route : ℕ → List RtableEntry → ℕ → Outcome (Option RtableEntry)
best_route rounds rtable dest_ip = elim (get_best_route rounds rtable dest_ip) [
  | found none ↦ done none
  | found (some i) ↦ elim (get_elem? rtable i) [ none ↦ fault | some e ↦ done (some e) ]
  | outside ↦ fault
  | unfinished ↦ endless
]

pub >>=-assoc {ℓ κ μ} :
    {A : Type ℓ} {B : Type κ} {C : Type μ} (m : Outcome A) (f : A → Outcome B) (g : B → Outcome C)
    → (m >>= f >>= g) ≡ (m >>= λ a. f a >>= g)
>>=-assoc (done a) f g = refl
>>=-assoc fault f g = refl
>>=-assoc endless f g = refl

-- A call that does not fault: its result satisfies `P`, or it does not end, and then `E` holds.
abbrev pub Ends {ℓ} : {A : Type ℓ} → Type 0 → (A → Type 0) → Outcome A → Type 0
Ends E P (done a) = P a
Ends E P fault = ⊥
Ends E P endless = E

pub Ends->>= {ℓ κ} :
    {A : Type ℓ} {B : Type κ} (E : Type 0) (P : A → Type 0) (Q : B → Type 0) (m : Outcome A)
    (f : A → Outcome B)
    → Ends E P m
    → ((a : A) → P a → Ends E Q (f a))
    → Ends E Q (m >>= f)
Ends->>= E P Q (done a) f w h = h a w
Ends->>= E P Q fault f w h = absurd w
Ends->>= E P Q endless f w h = w

pub Ends-map {ℓ} :
    {A : Type ℓ} (E F : Type 0) (P : A → Type 0) (m : Outcome A) → (E → F) → Ends E P m → Ends F P m
Ends-map E F P (done a) f w = w
Ends-map E F P fault f w = absurd w
Ends-map E F P endless f w = f w

-- What `R` says of the result, if there is one.
abbrev pub After {ℓ} : {A : Type ℓ} → (A → Type 0) → Outcome A → Type 0
After R (done a) = R a
After R fault = ⊥
After R endless = ⊥

-- What `R` says of every result.
abbrev pub Whenever {ℓ} : {A : Type ℓ} → (A → Type 0) → Outcome A → Type 0
Whenever R (done a) = R a
Whenever R fault = Unit
Whenever R endless = Unit

pub Whenever-all {ℓ} :
    {A : Type ℓ} (R : A → Type 0) (m : Outcome A) → ((a : A) → R a) → Whenever R m
Whenever-all R (done a) h = h a
Whenever-all R fault h = tt
Whenever-all R endless h = tt

-- The first call does not end because of `D`, or the second because of what `R` says.
pub Ends-After {ℓ κ} :
    {A : Type ℓ} {B : Type κ} (D : Type 0) (R P W : A → Type 0) (Q : B → Type 0) (m : Outcome A)
    (f : A → Outcome B)
    → Ends D P m
    → Whenever W m
    → ((a : A) → P a → W a → Ends (R a) Q (f a))
    → Ends (D ⊎ After R m) Q (m >>= f)
Ends-After D R P W Q (done a) f e w h = Ends-map (R a) (D ⊎ R a) Q (f a) inr (h a e w)
Ends-After D R P W Q fault f e w h = absurd e
Ends-After D R P W Q endless f e w h = inl e
