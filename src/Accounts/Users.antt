-- ===== src/Accounts/Users.antt =====
-- `signup`, `login` and `google_login` of apps/http-server/src/api/auth.rs. bcrypt, the encoding of tokens
-- and Google's answer are parameters; the clock counts seconds. PostgreSQL answers.
use bookit.Common.{
  ℕ, suc, ◌≡◌, Bool, true, false, ◌&&◌, not, Option, none, some, List, [], ◌∷◌, ◌++◌, ltb, ◌==◌,
  if◌then◌else◌, String, same_text, is_blank, byte_len, contains_at,
}
use bookit.Payment.Tables.{find_where, is_found}

pub data UserRole : Type 0 where
  admin user : UserRole

pub record User : Type 0 where
  pub id : ℕ
  pub email : String
  pub password_hash : String
  pub role : UserRole

-- bcrypt: a hash has a salt of its own, here its number, and may fail; a password verifies against each of
-- its hashes.
pub record Bcrypt : Type 0 where
  pub hash : ℕ → String → Option String
  pub verify : String → String → Option Bool
  pub verify-hash : (n : ℕ) (p h : String) → hash n p ≡ some h → verify p h ≡ some true

pub data AuthError : Type 0 where
  bad_request conflict internal unauthorized forbidden not_found expired unavailable bad_gateway :
      String → AuthError

pub data Result {ℓ} (A : Type ℓ) : Type ℓ where
  ok : A → Result A
  err : AuthError → Result A

pub record Claims : Type 0 where
  pub sub : ℕ
  pub email : String
  pub role : UserRole

-- The table, which has UNIQUE (email), and the keys of Redis with their values and deadlines.
pub record Accounts : Type 0 where
  pub next_id : ℕ
  pub users : List User
  pub tokens : String → Option (String × ℕ)

abbrev pub has_email : String → User → Bool
has_email e u = same_text u.email e

abbrev pub find_user : String → Accounts → Option User
find_user e s = find_where (has_email e) s.users

abbrev pub role_of : Option String → UserRole
role_of none = user
role_of (some r) = if same_text r "admin" then admin else user

abbrev pub claims_of : User → Claims
claims_of u = record { sub = u.id; email = u.email; role = u.role }

abbrev pub new_user : ℕ → String → String → UserRole → User
new_user i e h r = record { id = i; email = e; password_hash = h; role = r }

abbrev pub with_user : User → Accounts → Accounts
with_user u s = record s { next_id = suc s.next_id; users = s.users ++ (u ∷ []) }

abbrev pub token_answer : String → User → Option String → Result (String × Claims)
token_answer failure u none = err (internal failure)
token_answer failure u (some t) = ok (t, claims_of u)

-- The last step of each login: the token, where it is encoded.
abbrev pub token_for : (Claims → Option String) → String → User → Result (String × Claims)
token_for encode failure u = token_answer failure u (encode (claims_of u))

-- The account that the request makes: none where the hash fails. The errors of a hash and of a token are
-- those of the handler.
abbrev pub insert_hashed :
    (Claims → Option String)
    → String
    → String
    → String
    → UserRole
    → Option String
    → Accounts
    → Accounts × Result (String × Claims)
insert_hashed encode no_hash no_token e r none s = (s, err (internal no_hash))
insert_hashed encode no_hash no_token e r (some h) s =
    (with_user (new_user s.next_id e h r) s, token_for encode no_token (new_user s.next_id e h r))

pub record SignupRequest : Type 0 where
  pub email : String
  pub password : String
  pub role : Option String

-- `salt` is the number of the hash.
unfoldable pub signup :
    Bcrypt
    → (Claims → Option String)
    → ℕ
    → SignupRequest
    → Accounts
    → Accounts × Result (String × Claims)
signup b encode salt q s =
    if is_blank q.email
    then (s, err (bad_request "Email address is required."))
    else if not (contains_at q.email)
    then (s, err (bad_request "Please enter a valid email address."))
    else if ltb (byte_len q.password) 6
    then (s, err (bad_request "Password must be at least 6 characters."))
    else if is_found (find_user q.email s)
    then (s, err (conflict "An account with this email already exists."))
    else insert_hashed encode "Failed to process password." "Account created but token failed."
        q.email (role_of q.role) (b.hash salt q.password) s

abbrev pub verified : (Claims → Option String) → User → Option Bool → Result (String × Claims)
verified encode u none = err (internal "Failed to verify password.")
verified encode u (some false) = err (unauthorized "Incorrect password.")
verified encode u (some true) = token_for encode "Login succeeded but token failed." u

abbrev pub login_found :
    Bcrypt → (Claims → Option String) → String → Option User → Result (String × Claims)
login_found b encode p none = err (unauthorized "No account found with that email.")
login_found b encode p (some u) = verified encode u (b.verify p u.password_hash)

-- A login changes nothing.
unfoldable pub login :
    Bcrypt → (Claims → Option String) → String → String → Accounts → Result (String × Claims)
login b encode e p s =
    if is_blank e
    then err (bad_request "Email address is required.")
    else if byte_len p == 0
    then err (bad_request "Password is required.")
    else login_found b encode p (find_user e s)

-- What the code reads off Google's answer: the audience, whether `email_verified` is the text true, the
-- expiry, and the address trimmed and in lower case.
pub record GoogleTokenInfo : Type 0 where
  pub aud : String
  pub email_verified : Bool
  pub exp : ℕ
  pub email : String

-- Whether the request to Google fails, is refused, answers what cannot be read, or is answered.
pub data Verification : Type 0 where
  fails refused unreadable : Verification
  answered : GoogleTokenInfo → Verification

abbrev pub google_user :
    Bcrypt
    → (Claims → Option String)
    → ℕ
    → String
    → String
    → Option User
    → Accounts
    → Accounts × Result (String × Claims)
google_user b encode salt random e (some u) s =
    (s, token_for encode "Google login succeeded but token creation failed." u)
google_user b encode salt random e none s =
    insert_hashed encode "Failed to initialize Google account."
      "Google login succeeded but token creation failed." e user (b.hash salt random) s

abbrev pub google_verified :
    Bcrypt
    → (Claims → Option String)
    → ℕ
    → String
    → ℕ
    → String
    → Verification
    → Accounts
    → Accounts × Result (String × Claims)
google_verified b encode salt random now client_id fails s =
    (s, err (bad_gateway "Google token verification failed."))
google_verified b encode salt random now client_id refused s =
    (s, err (unauthorized "Invalid Google credential."))
google_verified b encode salt random now client_id unreadable s =
    (s, err (unauthorized "Invalid Google token response."))
google_verified b encode salt random now client_id (answered c) s =
    if same_text c.aud client_id && (c.email_verified && ltb now c.exp)
    then google_user b encode salt random c.email (find_user c.email s) s
    else (s, err (unauthorized "Google credential validation failed."))

-- `random` is the password that an account without one gets.
unfoldable pub google_login :
    Bcrypt
    → (Claims → Option String)
    → ℕ
    → String
    → ℕ
    → Option String
    → String
    → Verification
    → Accounts
    → Accounts × Result (String × Claims)
google_login b encode salt random now none credential answer s =
    (s, err (unavailable "Google login is not configured."))
google_login b encode salt random now (some client_id) credential answer s =
    if is_blank credential
    then (s, err (bad_request "Google credential is required."))
    else google_verified b encode salt random now client_id answer s
