-- ===== src/IdToken/Audiences.antt =====
-- verification.py: the audience of an ID token and who its e-mail is vouched by.
use coreline_auth_module.Common.{
  String, ◌≡◌, ◌⊎◌, inl, inr, refl, sym, ap, ◌∙◌, true, Option, some, none, List, [], ◌∷◌, arith,
  eq_iff,
}
use coreline_auth_module.Common.Text.{lower, strip}
use coreline_auth_module.Errors.{ok, ok-injective}
use coreline_auth_module.Json.{Json, Jsons, nil, cons}
use coreline_auth_module.Social.{email_verified_from_claim}
use coreline_auth_module.IdToken.{
  Audience, one, many, claim_of, texts_of, audience_list, read_audience,
}

-- The claim `aud` that says an audience: a text, or a list of texts.
pub jsons_of : List String → Jsons
jsons_of [] = nil
jsons_of (t ∷ ts) = cons (Json.text t) (jsons_of ts)

abbrev pub json_of : Audience → Json
json_of (one t) = Json.text t
json_of (many ts) = Json.array (jsons_of ts)

some_texts :
    (t : String) (o : Option (List String)) (ts : List String)
    → elim o as (λ _. Option (List String)) [ none ↦ none | some us ↦ some (t ∷ us) ] ≡ some ts
    → (us : List String) × (o ≡ some us) × (ts ≡ t ∷ us)
some_texts t none ts h = absurd (ground (arith, h))
some_texts t (some us) ts h = (us, refl, ground (arith, h))

texts_of_lem : (xs : Jsons) (ts : List String) → texts_of xs ≡ some ts → xs ≡ jsons_of ts
unfolding texts_of jsons_of
texts_of_lem nil ts h = let same : [] ≡ ts = ground (arith, h) in ap jsons_of same
texts_of_lem (cons (Json.text t) xs) ts h =
    let (us, e, same) = some_texts t (texts_of xs) ts h in
    ap (cons (Json.text t)) (texts_of_lem xs us e) ∙ sym (ap jsons_of same)
texts_of_lem (cons Json.null ys) ts h = absurd (ground (arith, h))
texts_of_lem (cons (Json.flag b) ys) ts h = absurd (ground (arith, h))
texts_of_lem (cons (Json.number n) ys) ts h = absurd (ground (arith, h))
texts_of_lem (cons Json.fraction ys) ts h = absurd (ground (arith, h))
texts_of_lem (cons (Json.array xs) ys) ts h = absurd (ground (arith, h))
texts_of_lem (cons (Json.object ms) ys) ts h = absurd (ground (arith, h))

audience_list_lem :
    (xs : Jsons) (o : Option (List String)) (a : Audience)
    → texts_of xs ≡ o
    → audience_list o ≡ ok a
    → Json.array xs ≡ json_of a
unfolding audience_list
audience_list_lem xs none a e h = absurd (ground (arith, h))
audience_list_lem xs (some ts) a e h =
    ap Json.array (texts_of_lem xs ts e) ∙ ap json_of (ok-injective (many ts) a h)

-- The audience that is read is the one that the claim says.
pub read_audience_lem :
    (found : Option Json) (a : Audience) → read_audience found ≡ ok a → found ≡ some (json_of a)
unfolding read_audience
read_audience_lem (some (Json.text t)) a h = ap (λ x. some (json_of x)) (ok-injective (one t) a h)
read_audience_lem (some (Json.array xs)) a h = ap some (audience_list_lem xs (texts_of xs) a refl h)
read_audience_lem none a h = absurd (ground (arith, h))
read_audience_lem (some Json.null) a h = absurd (ground (arith, h))
read_audience_lem (some (Json.flag b)) a h = absurd (ground (arith, h))
read_audience_lem (some (Json.number n)) a h = absurd (ground (arith, h))
read_audience_lem (some Json.fraction) a h = absurd (ground (arith, h))
read_audience_lem (some (Json.object ms)) a h = absurd (ground (arith, h))

-- The claim `email_verified` vouches for an e-mail that the token has.
pub record IsVouched (found : Option Json) (email : Option String) : Type 0 where
  pub address : String
  pub has_email : email ≡ some address
  pub claimed :
      (found ≡ some (Json.flag true))
      ⊎ ((t : String) × (found ≡ some (Json.text t))
          × ((lower (strip t) ≡ "true") ⊎ (lower (strip t) ≡ "1")))

pub email_verified-IsVouched :
    (found : Option Json) (email : Option String)
    → email_verified_from_claim (claim_of found) email ≡ true
    → IsVouched found email
unfolding email_verified_from_claim
email_verified-IsVouched found none h = absurd (ground (arith, h))
email_verified-IsVouched (some (Json.flag b)) (some e) h = record {
  address = e;
  has_email = refl;
  claimed = inl (ap (λ x. some (Json.flag x)) h);
}
email_verified-IsVouched (some (Json.text t)) (some e) h = record {
  address = e;
  has_email = refl;
  claimed =
      inr
        (t, refl, ground (arith, h, eq_iff (lower (strip t)) "true", eq_iff (lower (strip t)) "1"));
}
email_verified-IsVouched none (some e) h = absurd (ground (arith, h))
email_verified-IsVouched (some Json.null) (some e) h = absurd (ground (arith, h))
email_verified-IsVouched (some (Json.number n)) (some e) h = absurd (ground (arith, h))
email_verified-IsVouched (some Json.fraction) (some e) h = absurd (ground (arith, h))
email_verified-IsVouched (some (Json.array xs)) (some e) h = absurd (ground (arith, h))
email_verified-IsVouched (some (Json.object ms)) (some e) h = absurd (ground (arith, h))
