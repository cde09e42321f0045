-- ===== src/Mfa.antt =====
-- src/coreline_auth/mfa.py: TOTP codes and the in-memory vault. The digest of a counter comes from
-- `hmac_sha1` of the host.
use Prim.Native.Char.{code}
use Prim.Native.String
use coreline_auth_module.Common.{
  ℕ, zero, suc, Bool, not, is_none, List, [], ◌∷◌, ◌%◌, ◌+◌, ◌-◌, ◌*◌, ◌/◌, String, ◌&&◌, Option,
  none, some, leb, eqb, ◌==◌, if◌then◌else◌,
}
use coreline_auth_module.Common.Text.{strip}
use coreline_auth_module.Common.Dict
use coreline_auth_module.Common.Dict.{Dict}
use coreline_auth_module.Host.{Host}

-- `InMemoryMfaSecretVault`
unfoldable pub store_totp_secret : String → String → Dict String → Dict String
store_totp_secret factor_id secret vault = Dict.set factor_id secret vault

unfoldable pub load_totp_secret : String → Dict String → Option String
load_totp_secret factor_id vault = Dict.get factor_id vault

abbrev pub recovery_code_chars : ℕ
recovery_code_chars = 27

abbrev pub period_seconds : ℕ
period_seconds = 30

-- The digits of a text, of the ASCII ones that `isdigit` accepts.
digits_of : String → String
digits_of String.[] = String.[]
digits_of (String.◌∷◌ c s) =
    let rest = digits_of s in
    if leb b'0' (code c) && leb (code c) b'9' then String.◌∷◌ c rest else rest

-- The decimal digit of a number below ten.
abbrev digit : ℕ → String
digit d =
    if eqb d 0
    then "0"
    else if eqb d 1
    then "1"
    else if eqb d 2
    then "2"
    else if eqb d 3
    then "3"
    else if eqb d 4
    then "4"
    else if eqb d 5
    then "5"
    else if eqb d 6
    then "6"
    else if eqb d 7
    then "7"
    else if eqb d 8
    then "8"
    else "9"

-- `str(n).zfill(digits)` of a number below `10 ** digits`.
padded_digits : ℕ → ℕ → String
padded_digits zero n = ""
padded_digits (suc digits) n = String.◌++◌ (padded_digits digits (n / 10)) (digit (n % 10))

-- `_pad_base32`: up to a length that is a multiple of eight.
pad_base32 : String → String
pad_base32 value = String.◌++◌ value (equal_signs ((8 - String.count value % 8) % 8))
  where
    equal_signs : ℕ → String
    equal_signs zero = ""
    equal_signs (suc n) = String.◌++◌ "=" (equal_signs n)

-- `digest[i]`, of a digest that is long enough.
byte_at : ℕ → List ℕ → ℕ
byte_at n [] = 0
byte_at zero (b ∷ bs) = b
byte_at (suc n) (b ∷ bs) = byte_at n bs

last_byte : List ℕ → ℕ
last_byte [] = 0
last_byte (b ∷ []) = b
last_byte (b ∷ c ∷ bs) = last_byte (c ∷ bs)

-- `struct.unpack(">I", digest[offset:offset + 4])[0] & 0x7FFFFFFF`, with the offset in the low four
-- bits of the last byte.
truncated : List ℕ → ℕ
unfolding byte_at last_byte
truncated digest =
    let offset = last_byte digest % 16 in
    (((byte_at offset digest * 256 + byte_at (offset + 1) digest) * 256
          + byte_at (offset + 2) digest)
        * 256
      + byte_at (offset + 3) digest)
    % 2147483648

module _ (host : Host) where
  -- `totp_code` at a time in seconds, with six digits.
  unfoldable pub totp_code : String → ℕ → String
  unfolding truncated pad_base32 padded_digits
  totp_code secret timestamp =
      let digest = host.hmac_sha1 (pad_base32 secret) (timestamp / period_seconds) in
      padded_digits 6 (truncated digest % 1000000)

  -- The loop of `totp_counter_for_code` over the counters from `counter` on, `left` of them.
  first_match : String → String → ℕ → ℕ → Option ℕ
  unfolding totp_code
  first_match secret digits zero counter = none
  first_match secret digits (suc left) counter =
      let rest = first_match secret digits left (counter + 1) in
      if totp_code secret (counter * period_seconds) == digits then some counter else rest

  -- `totp_counter_for_code` with its default window of one step, six digits and periods of thirty
  -- seconds. The clock is past the first period, so no counter is negative.
  unfoldable pub totp_counter_for_code : String → String → ℕ → Option ℕ
  unfolding first_match digits_of strip
  totp_counter_for_code secret code timestamp =
      let normalized = digits_of (strip code) in
      if eqb (String.count normalized) 6
      then first_match secret normalized 3 (timestamp / period_seconds - 1)
      else none

  unfoldable pub verify_totp_code : String → String → ℕ → Bool
  unfolding totp_counter_for_code
  verify_totp_code secret code timestamp =
      not (is_none (totp_counter_for_code secret code timestamp))
