-- ===== src/IdToken/Times.antt =====
-- verification.py: the times of an accepted ID token.
use coreline_auth_module.Common.{
  ℕ, ◌+◌, ◌≤◌, String, ◌≡◌, refl, sym, ap, subst, false, Option, some, none, arith,
}
use coreline_auth_module.Common.Int.{ℤ, pos, negsuc, pos_part, neg_part, ◌+ℤ◌, ◌-ℤ◌, ltz}
use coreline_auth_module.Errors.{
  ok, then-eq_ok, bind-eq_ok, raise_if-eq_ok, guard-eq_ok, ok-injective,
}
use coreline_auth_module.Json.{Json, Members, lookup, as_int}
use coreline_auth_module.IdToken.{
  Expected, required_int, integer_or, optional_int, is_ahead, check_age, check_times,
}

-- The value of a claim that may be missing or null, and is an integer otherwise.
pub data IsWhole (found : Option Json) (value : Option ℤ) : Type 0 where
  missing : found ≡ none → value ≡ none → IsWhole found value
  empty : found ≡ some Json.null → value ≡ none → IsWhole found value
  given : (n : ℤ) → as_int found ≡ some n → value ≡ some n → IsWhole found value

-- The times of a payload, with the leeway on each side: the token is not expired, was issued and
-- begins to hold at a time that is not ahead, and is not older than the maximal age.
pub record IsTimely (x : Expected) (payload : Members) (current : ℕ) (exp : ℤ) (iat : Option ℤ)
    : Type 0 where
  pub expiry : as_int (lookup "exp" payload) ≡ some exp
  pub issue : IsWhole (lookup "iat" payload) iat
  pub nbf : Option ℤ
  pub start : IsWhole (lookup "nbf" payload) nbf
  pub current_still : current + neg_part exp ≤ pos_part exp + x.leeway_seconds
  pub issued : (t : ℤ) → iat ≡ some t → pos_part t ≤ current + neg_part t + x.leeway_seconds
  pub begun : (t : ℤ) → nbf ≡ some t → pos_part t ≤ current + neg_part t + x.leeway_seconds
  pub young :
      (m : ℕ)
      → x.max_age_seconds ≡ some m
      → (t : ℤ) × (iat ≡ some t) × (current + neg_part t ≤ pos_part t + m + x.leeway_seconds)

check_age_lem :
    (max_age : Option ℕ) (iat : Option ℤ) (leeway current m : ℕ)
    → check_age max_age iat leeway current ≡ ok tt
    → max_age ≡ some m
    → (t : ℤ) × (iat ≡ some t) × (current + neg_part t ≤ pos_part t + m + leeway)
unfolding check_age
check_age_lem none iat leeway current m h e = absurd (ground (arith, e))
check_age_lem (some n) none leeway current m h e = absurd (ground (arith, h))
check_age_lem (some n) (some t) leeway current m h e =
    (t, refl, (ground (arith, e, raise_if-eq_ok (ltz (pos (n + leeway)) (pos current -ℤ t)) _ h)))

is_ahead_lem :
    (iat : Option ℤ) (leeway current : ℕ) (t : ℤ)
    → is_ahead iat leeway current ≡ false
    → iat ≡ some t
    → pos_part t ≤ current + neg_part t + leeway
is_ahead_lem none leeway current t h e = absurd (ground (arith, e))
is_ahead_lem (some s) leeway current t h e = ground (arith, h, e)

required_int_lem : (found : Option ℤ) (n : ℤ) → required_int found ≡ ok n → found ≡ some n
unfolding required_int
required_int_lem none n h = absurd (ground (arith, h))
required_int_lem (some m) n h = ap some (ok-injective m n h)

still_lem :
    (leeway current : ℕ) (exp : ℤ)
    → ltz (exp +ℤ pos leeway) (pos current) ≡ false
    → current + neg_part exp ≤ pos_part exp + leeway
still_lem leeway current (pos n) h = ground (arith, h)
still_lem leeway current (negsuc n) h = ground (arith, h)

optional_int-IsWhole :
    (message : String) (found : Option Json) (value : Option ℤ)
    → optional_int message found ≡ ok value
    → IsWhole found value
unfolding optional_int integer_or
optional_int-IsWhole message none value h = IsWhole.missing refl (sym (ok-injective none value h))
optional_int-IsWhole message (some Json.null) value h =
    IsWhole.empty refl (sym (ok-injective none value h))
optional_int-IsWhole message (some (Json.number n)) value h =
    IsWhole.given n refl (sym (ok-injective (some n) value h))
optional_int-IsWhole message (some (Json.flag b)) value h =
    IsWhole.given _ refl (sym (ok-injective _ value h))
optional_int-IsWhole message (some Json.fraction) value h = absurd (ground (arith, h))
optional_int-IsWhole message (some (Json.text t)) value h = absurd (ground (arith, h))
optional_int-IsWhole message (some (Json.array xs)) value h = absurd (ground (arith, h))
optional_int-IsWhole message (some (Json.object ms)) value h = absurd (ground (arith, h))

pub check_times_lem :
    (x : Expected) (payload : Members) (current : ℕ) (exp : ℤ) (iat : Option ℤ)
    → check_times x payload current ≡ ok (exp, iat)
    → IsTimely x payload current exp iat
unfolding check_times
check_times_lem x payload current exp iat h =
    let (exp₁, d1, h1) = bind-eq_ok (required_int (as_int (lookup "exp" payload))) _ h in
    let (still, h2) = guard-eq_ok (ltz (exp₁ +ℤ pos x.leeway_seconds) (pos current)) _ _ h1 in
    let (iat₁, d2, h3) =
      bind-eq_ok (optional_int "ID token invalid iat" (lookup "iat" payload)) _ h2 in
    let (past, h4) = guard-eq_ok (is_ahead iat₁ x.leeway_seconds current) _ _ h3 in
    let (nbf, d3, h5) =
      bind-eq_ok (optional_int "ID token invalid nbf" (lookup "nbf" payload)) _ h4 in
    let (begun, h6) = guard-eq_ok (is_ahead nbf x.leeway_seconds current) _ _ h5 in
    let (age, last) = then-eq_ok (check_age x.max_age_seconds iat₁ x.leeway_seconds current) _ h6 in
    let pair = ok-injective (exp₁, iat₁) (exp, iat) last in
    subst (λ (p : ℤ × Option ℤ). IsTimely x payload current p.0 p.1) pair
      (record {
        expiry = required_int_lem (as_int (lookup "exp" payload)) exp₁ d1;
        issue = optional_int-IsWhole "ID token invalid iat" (lookup "iat" payload) iat₁ d2;
        nbf = nbf;
        start = optional_int-IsWhole "ID token invalid nbf" (lookup "nbf" payload) nbf d3;
        current_still = still_lem x.leeway_seconds current exp₁ still;
        issued = λ t e. is_ahead_lem iat₁ x.leeway_seconds current t past e;
        begun = λ t e. is_ahead_lem nbf x.leeway_seconds current t begun e;
        young = λ m e. check_age_lem x.max_age_seconds iat₁ x.leeway_seconds current m age e;
      })
