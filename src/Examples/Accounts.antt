-- ===== src/Examples/Accounts.antt =====
-- A sign-up, a reset and a login, with a bcrypt that keeps the password as its own hash.
use bookit.Common.{
  ℕ, ◌<◌, ◌≡◌, refl, true, Option, none, some, List, [], ◌∷◌, String, same_text, same_text_iff,
  is_whitespace, byte_len,
}
use bookit.Payment.Tables.{find_where, count_where}
use bookit.Accounts.Users.{
  user, admin, User, Bcrypt, ok, err, AuthError, Claims, Accounts, SignupRequest, signup, login,
}
use bookit.Accounts.Password.{reset_confirm, set_password}
use bookit.Accounts.Login.{Event, signs_up, requests_reset, confirms_reset, events, Has}
use bookit.Accounts.SignedUp.{Opens, signup-login}
use bookit.Accounts.Reset.{reset_confirm_once}

verify-hash : (n : ℕ) (p h : String) → some p ≡ some h → some (same_text p h) ≡ some true
verify-hash n p h e = let same : p ≡ h = cc e in cc ((same_text_iff p h).1 same)

abbrev plain : Bcrypt
plain = record {
  hash = λ n p. some p;
  verify = λ p h. some (same_text p h);
  verify-hash = verify-hash;
}

abbrev encode : Claims → Option String
encode c = some c.email

abbrev request : SignupRequest
request = record { email = "ana@x.in"; password = "sesame"; role = none }

abbrev other : SignupRequest
other = record { email = "bo@x.in"; password = "sesame2"; role = some "admin" }

abbrev no_accounts : Accounts
no_accounts = record { next_id = 1; users = []; tokens = λ e. none }

abbrev ana : Claims
ana = record { sub = 1; email = "ana@x.in"; role = user }

abbrev later_events : List Event
later_events = signs_up 2 other ∷ requests_reset true 50 "t1" "bo@x.in" ∷ []

signs_up_ok : (signup plain encode 1 request no_accounts).1 ≡ ok ("ana@x.in", ana)
unfolding signup is_whitespace byte_len find_where
signs_up_ok = refl

signup-login_example :
    login plain encode "ana@x.in" "sesame"
      (events plain encode later_events (signup plain encode 1 request no_accounts).0)
    ≡ ok ("ana@x.in", ana)
signup-login_example =
    signup-login plain encode encode 1 request no_accounts "ana@x.in" "ana@x.in" ana later_events
      signs_up_ok (tt, (tt, tt)) refl

abbrev token_of_bo : String → Option (String × ℕ)
token_of_bo e = some ("t1", 950)

abbrev bo : User
bo = record { id = 2; email = "bo@x.in"; password_hash = "sesame2"; role = admin }

abbrev with_token : Accounts
with_token = record { next_id = 3; users = bo ∷ []; tokens = token_of_bo }

confirms_ok : (reset_confirm plain true true 4 60 "bo@x.in" "t1" "open sesame" with_token).1 ≡ ok tt
unfolding reset_confirm byte_len set_password count_where
confirms_ok = refl

-- Meanwhile a stranger tries a token, and another address asks for one.
abbrev meanwhile : List Event
meanwhile =
    confirms_reset true true 5 61 "bo@x.in" "t9" "open sesame"
    ∷ requests_reset true 62 "t2" "ana@x.in"
    ∷ []

reset_confirm_once_example :
    let after = (reset_confirm plain true true 4 60 "bo@x.in" "t1" "open sesame" with_token).0 in
    ((deadline : ℕ) × ((with_token.tokens "bo@x.in" ≡ some ("t1", deadline)) × (60 < deadline)))
    × (((u : User) × (Has "bo@x.in" u after × Opens plain "open sesame" u))
        × ((x : AuthError) × ((reset_confirm plain true true 6 70 "bo@x.in" "t1" "again sesame"
                (events plain encode meanwhile after)).1
              ≡ err x)))
reset_confirm_once_example =
    reset_confirm_once plain true 4 60 "bo@x.in" "t1" "open sesame" with_token encode meanwhile true
      true 6 70 "t1" "again sesame" confirms_ok (tt, (refl, tt))
