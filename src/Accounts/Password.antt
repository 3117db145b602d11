-- ===== src/Accounts/Password.antt =====
-- `reset_request` and `reset_confirm` of apps/http-server/src/api/admin/password_reset.rs, with Redis's keys
-- of tokens and their deadlines; the clock counts seconds. PostgreSQL answers.
use bookit.Common.{
  ℕ, ◌+◌, ◌*◌, Bool, true, false, Option, none, some, ltb, ◌==◌, if◌then◌else◌, String, same_text,
  is_blank, byte_len,
}
use bookit.Payment.Tables.{update_where, count_where}
use bookit.Accounts.Users.{
  has_email, find_user, UserRole, admin, user, User, Bcrypt, bad_request, internal, unauthorized,
  forbidden, not_found, expired, Result, ok, err, Accounts,
}

abbrev pub reset_ttl_secs : ℕ
reset_ttl_secs = 60 * 15

abbrev pub set_token : String → Option (String × ℕ) → Accounts → Accounts
set_token e v s = record s { tokens = λ f. if same_text e f then v else s.tokens f }

abbrev pub give_token : Bool → ℕ → String → String → Accounts → Accounts × Result String
give_token true now token e s = (set_token e (some (token, now + reset_ttl_secs)) s, ok token)
give_token false now token e s = (s, err (internal "Cache error."))

abbrev pub reset_role : Bool → ℕ → String → String → UserRole → Accounts → Accounts × Result String
reset_role writes now token e admin s = give_token writes now token e s
reset_role writes now token e user s =
    (s, err (forbidden "No admin account found with that email."))

abbrev pub reset_for :
    Bool → ℕ → String → String → Option User → Accounts → Accounts × Result String
reset_for writes now token e none s = (s, err (not_found "No admin account found with that email."))
reset_for writes now token e (some u) s = reset_role writes now token e u.role s

-- `token` is the new UUID; the answer holds it.
unfoldable pub reset_request : Bool → ℕ → String → String → Accounts → Accounts × Result String
reset_request writes now token e s =
    if is_blank e
    then (s, err (bad_request "Email is required."))
    else reset_for writes now token e (find_user e s) s

-- GET on the key of a token
abbrev pub live_token : ℕ → Option (String × ℕ) → Option String
live_token now none = none
live_token now (some (t, deadline)) = if ltb now deadline then some t else none

abbrev pub with_password : String → User → User
with_password h u = record u { password_hash = h }

-- `deletes`: whether DEL reaches Redis.
unfoldable pub set_password :
    Bool → String → Option String → Accounts → Accounts × Result (Unit {0})
set_password deletes e none s = (s, err (internal "Failed to hash password."))
set_password deletes e (some h) s =
    let updated = record s { users = update_where (has_email e) (with_password h) s.users } in
    if count_where (has_email e) s.users == 0
    then (s, err (not_found "User not found."))
    else (if deletes then set_token e none updated else updated, ok tt)

abbrev pub confirm_token :
    Bcrypt
    → Bool
    → ℕ
    → String
    → String
    → String
    → Option String
    → Accounts
    → Accounts × Result (Unit {0})
confirm_token b deletes salt e token p none s =
    (s, err (expired "Reset token not found or has expired. Please request a new one."))
confirm_token b deletes salt e token p (some stored) s =
    if same_text stored token
    then set_password deletes e (b.hash salt p) s
    else (s, err (unauthorized "Invalid reset token."))

-- `reads`: whether GET is answered.
unfoldable pub reset_confirm :
    Bcrypt
    → Bool
    → Bool
    → ℕ
    → ℕ
    → String
    → String
    → String
    → Accounts
    → Accounts × Result (Unit {0})
reset_confirm b reads deletes salt now e token p s =
    if ltb (byte_len p) 8
    then (s, err (bad_request "Password must be at least 8 characters."))
    else if reads
    then confirm_token b deletes salt e token p (live_token now (s.tokens e)) s
    else (s, err (internal "Cache error."))
