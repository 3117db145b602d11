-- ===== src/Accounts/Tokens.antt =====
-- The tokens of the accounts under the requests of apps/http-server/src/api/auth.rs and
-- apps/http-server/src/api/admin/password_reset.rs.
use bookit.Common.{
  ℕ, ◌≡◌, refl, Bool, true, false, ◌&&◌, not, Option, none, some, List, [], ◌∷◌, ltb, ◌==◌, String,
  same_text, is_blank, contains_at, byte_len, All, if_lem,
}
use bookit.Payment.Tables.{count_where, is_found}
use bookit.Accounts.Users.{
  User, UserRole, admin, user, Bcrypt, Accounts, Claims, has_email, find_user, insert_hashed,
  SignupRequest, signup, Verification, fails, refused, unreadable, answered, google_user,
  google_verified, google_login,
}
use bookit.Accounts.Password.{
  set_password, confirm_token, reset_confirm, reset_role, reset_for, reset_request,
}
use bookit.Accounts.Login.{Event, signs_up, googles, requests_reset, confirms_reset, event, events}

-- The event asks for no token of the address.
abbrev pub AsksNot : String → Event → Type 0
AsksNot e (requests_reset writes now token f) = same_text f e ≡ false
AsksNot e (signs_up salt q) = Unit
AsksNot e (googles salt random now id credential answer) = Unit
AsksNot e (confirms_reset reads deletes salt now f token p) = Unit

module _ (e : String) where
  abbrev NoToken {ℓ} : {A : Type ℓ} → Accounts × A → Type 0
  NoToken r = r.0.tokens e ≡ none

  insert_hashed-NoToken :
      (encode : Claims → Option String) (x y f : String) (r : UserRole) (h : Option String)
      (s : Accounts)
      → s.tokens e ≡ none
      → NoToken (insert_hashed encode x y f r h s)
  insert_hashed-NoToken encode x y f r none s k = k
  insert_hashed-NoToken encode x y f r (some h) s k = k

  signup-NoToken :
      (b : Bcrypt) (encode : Claims → Option String) (salt : ℕ) (q : SignupRequest) (s : Accounts)
      → s.tokens e ≡ none
      → NoToken (signup b encode salt q s)
  unfolding signup
  signup-NoToken b encode salt q s k =
      if_lem NoToken (is_blank q.email) _ _ (λ t. k)
        (λ t.
          if_lem NoToken (not (contains_at q.email)) _ _ (λ v. k)
            (λ v.
              if_lem NoToken (ltb (byte_len q.password) 6) _ _ (λ w. k)
                (λ w.
                  if_lem NoToken (is_found (find_user q.email s)) _ _ (λ x. k)
                    (λ x.
                      insert_hashed-NoToken encode _ _ q.email _ (b.hash salt q.password) s k))))

  google_verified-NoToken :
      (b : Bcrypt) (encode : Claims → Option String) (salt : ℕ) (random : String) (now : ℕ)
      (id : String) (answer : Verification) (s : Accounts)
      → s.tokens e ≡ none
      → NoToken (google_verified b encode salt random now id answer s)
  google_verified-NoToken b encode salt random now id fails s k = k
  google_verified-NoToken b encode salt random now id refused s k = k
  google_verified-NoToken b encode salt random now id unreadable s k = k
  google_verified-NoToken b encode salt random now id (answered c) s k =
      if_lem NoToken (same_text c.aud id && (c.email_verified && ltb now c.exp)) _ _
        (λ t. found (find_user c.email s)) (λ t. k)
    where
      found : (o : Option User) → NoToken (google_user b encode salt random c.email o s)
      found (some v) = k
      found none = insert_hashed-NoToken encode _ _ c.email user (b.hash salt random) s k

  reset_for-NoToken :
      (writes : Bool) (now : ℕ) (token f : String) (found : Option User) (s : Accounts)
      → same_text f e ≡ false
      → s.tokens e ≡ none
      → NoToken (reset_for writes now token f found s)
  reset_for-NoToken writes now token f none s n k = k
  reset_for-NoToken writes now token f (some v) s n k = role v.role writes
    where
      role : (r : UserRole) (w : Bool) → NoToken (reset_role w now token f r s)
      role user w = k
      role admin true = simp n k
      role admin false = k

  confirm_token-NoToken :
      (b : Bcrypt) (deletes : Bool) (salt : ℕ) (f token p : String) (stored : Option String)
      (s : Accounts)
      → s.tokens e ≡ none
      → NoToken (confirm_token b deletes salt f token p stored s)
  unfolding set_password
  confirm_token-NoToken b deletes salt f token p none s k = k
  confirm_token-NoToken b deletes salt f token p (some stored) s k =
      if_lem NoToken (same_text stored token) _ _ (λ t. set (b.hash salt p)) (λ t. k)
    where
      set : (h : Option String) → NoToken (set_password deletes f h s)
      set none = k
      set (some h) =
          if_lem NoToken (count_where (has_email f) s.users == 0) _ _ (λ t. k)
            (λ t.
              if_lem (λ (a : Accounts). a.tokens e ≡ none) deletes _ _
                (λ d.
                  if_lem (λ (v : Option (String × ℕ)). v ≡ none) (same_text f e) _ _ (λ x. refl)
                    (λ x. k))
                (λ d. k))

  event-NoToken :
      (b : Bcrypt) (encode : Claims → Option String) (x : Event) (s : Accounts)
      → AsksNot e x
      → s.tokens e ≡ none
      → (event b encode x s).tokens e ≡ none
  unfolding event google_login reset_request reset_confirm
  event-NoToken b encode (signs_up salt q) s n k = signup-NoToken b encode salt q s k
  event-NoToken b encode (googles salt random now none credential answer) s n k = k
  event-NoToken b encode (googles salt random now (some id) credential answer) s n k =
      if_lem NoToken (is_blank credential) _ _ (λ t. k)
        (λ t. google_verified-NoToken b encode salt random now id answer s k)
  event-NoToken b encode (requests_reset writes now token f) s n k =
      if_lem NoToken (is_blank f) _ _ (λ t. k)
        (λ t. reset_for-NoToken writes now token f (find_user f s) s n k)
  event-NoToken b encode (confirms_reset reads deletes salt now f token p) s n k =
      if_lem NoToken (ltb (byte_len p) 8) _ _ (λ t. k)
        (λ t.
          if_lem NoToken reads _ _ (λ r. confirm_token-NoToken b deletes salt f token p _ s k)
            (λ r. k))

  pub events-NoToken :
      (b : Bcrypt) (encode : Claims → Option String) (xs : List Event) (s : Accounts)
      → All (AsksNot e) xs
      → s.tokens e ≡ none
      → (events b encode xs s).tokens e ≡ none
  unfolding events
  events-NoToken b encode [] s n k = k
  events-NoToken b encode (x ∷ xs) s n k =
      events-NoToken b encode xs (event b encode x s) n.1 (event-NoToken b encode x s n.0 k)
