-- ===== src/Host.antt =====
-- What the program takes from outside its sources: hashes, the password hasher, the e-mail
-- validator, URL parsing, the clocks and the random numbers. A clock or a generator is a stream:
-- its reading or draw number n, for each n.
use coreline_auth_module.Common.{ℕ, String, ◌≡◌, Option, true, false, Bool, ◌==◌, List}

pub record Host : Type 0 where
  -- `hashlib.sha256(secret.encode("utf-8")).hexdigest()`
  pub sha256_hex : String → String
  -- `PasswordHasher.hash`, which draws a salt, and `verify`, with `false` for its exceptions
  pub argon2_hash : ℕ → String → String
  pub argon2_verify : String → String → Bool
  -- `validate_email(text, check_deliverability=False).normalized`, or `none` for its exception
  pub validate_email : String → Option String
  -- the scheme and the network location that `urlparse` finds
  pub url_scheme : String → String
  pub url_netloc : String → String
  -- `secrets.token_urlsafe(32)`, `uuid4().hex` and the base32 text of `os.urandom(20)`
  pub token : ℕ → String
  pub uuid : ℕ → String
  pub totp_secret : ℕ → String
  -- `datetime.now` in seconds, `time.time()` in seconds and `monotonic()` in nanoseconds
  pub clock : ℕ → ℕ
  pub unix_time : ℕ → ℕ
  pub monotonic : ℕ → ℕ
  -- whether the e-mail sender returns from its attempt number n, and does not raise
  pub delivers : ℕ → Bool
  -- the bytes of `hmac.new(base64.b32decode(secret), struct.pack(">Q", counter), sha1).digest()`,
  -- which are 20
  pub hmac_sha1 : String → ℕ → List ℕ
  -- `hmac.new(key, message, hashlib.sha256).hexdigest()`, of the UTF-8 bytes of two texts
  pub hmac_sha256 : String → String → String

-- The documented behaviour of the password hasher: what it hashed it verifies, and a hash is no
-- empty text.
pub record HasherLaws (host : Host) : Type 0 where
  pub verify_hash :
      (salt : ℕ) (password : String)
      → host.argon2_verify (host.argon2_hash salt password) password ≡ true
  pub hash_is_text : (salt : ℕ) (password : String) → (host.argon2_hash salt password == "") ≡ false
