-- ===== src/Errors.antt =====
-- src/coreline_auth/errors.py: the exception hierarchy, as values. A call that may raise returns a
-- `Result`. The texts are the messages.
use coreline_auth_module.Common.{String, Bool, true, false, ◌≡◌, refl, ap, arith}

pub data Error : Type 0 where
  configuration validation authentication_failed authorization_denied storage : String → Error
  value_error : String → Error

pub data Result {ℓ} (A : Type ℓ) : Type ℓ where
  ok : A → Result A
  raise : Error → Result A

infixl 5 ◌>>=◌ ◌>>◌
abbrev pub ◌>>=◌ {ℓ κ} : {A : Type ℓ} {B : Type κ} → Result A → (A → Result B) → Result B
ok a >>= f = f a
raise e >>= f = raise e

abbrev pub ◌>>◌ {ℓ κ} : {A : Type ℓ} {B : Type κ} → Result A → Result B → Result B
m >> k = m >>= λ _. k

-- `if b: raise e`
abbrev pub raise_if : Bool → Error → Result (Unit {0})
raise_if true e = raise e
raise_if false e = ok tt

abbrev pub is_ok {ℓ} : {A : Type ℓ} → Result A → Bool
is_ok (ok _) = true
is_ok (raise _) = false

-- The state after a call that returns a new one, or raises and leaves the old.
abbrev pub or_same {ℓ} : {A : Type ℓ} → Result A → A → A
or_same (ok s') s = s'
or_same (raise e) s = s

-- What a sequence that returns went through.
module _ {ℓ κ} {From : Type ℓ} {To : Type κ} where
  pub bind-eq_ok :
      (first : Result From) (rest : From → Result To) {y : To}
      → (first >>= rest) ≡ ok y
      → (x : From) × (first ≡ ok x) × (rest x ≡ ok y)
  bind-eq_ok (raise e) rest h = absurd (ground (arith, h))
  bind-eq_ok (ok x) rest h = (x, refl, h)

pub then-eq_ok {κ} :
    {B : Type κ} (m : Result (Unit {0})) (k : Result B) {b : B}
    → (m >> k) ≡ ok b
    → (m ≡ ok tt) × (k ≡ ok b)
then-eq_ok (ok tt) k h = (refl, h)
then-eq_ok (raise e) k h = absurd (ground (arith, h))

pub raise_if-eq_ok : (b : Bool) (e : Error) → raise_if b e ≡ ok tt → b ≡ false
raise_if-eq_ok true e h = absurd (ground (arith, h))
raise_if-eq_ok false e h = refl

pub guard-eq_ok {κ} :
    {B : Type κ} (b : Bool) (e : Error) (k : Result B) {r : B}
    → (raise_if b e >> k) ≡ ok r
    → (b ≡ false) × (k ≡ ok r)
guard-eq_ok true e k h = absurd (ground (arith, h))
guard-eq_ok false e k h = (refl, h)

pub ok-injective {ℓ} : {A : Type ℓ} (a b : A) → ok a ≡ ok b → a ≡ b
ok-injective {A = A} a b h = ap value_of h
  where
    value_of : Result A → A
    value_of (ok x) = x
    value_of (raise e) = a
