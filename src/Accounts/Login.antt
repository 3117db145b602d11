-- ===== src/Accounts/Login.antt =====
-- Who signed up can log in, whatever the others do.
use bookit.Common.{
  ℕ, ◌≡◌, refl, ap, ◌∙◌, inl, inr, Bool, true, false, ◌&&◌, not, Option, none, some, List, [], ◌∷◌,
  ◌++◌, ltb, ◌==◌, if◌then◌else◌, String, same_text, same_text_iff, is_blank, byte_len, contains_at,
  All, Bool-cases, if_lem,
}
use bookit.Payment.Tables.{find_where, update_where, count_where, is_found}
use bookit.Accounts.Users.{
  UserRole, admin, user, User, Bcrypt, Claims, Accounts, has_email, find_user, role_of, new_user,
  insert_hashed, SignupRequest, signup, Verification, fails, refused, unreadable, answered,
  google_user, google_verified, google_login,
}
use bookit.Accounts.Password.{
  reset_role, reset_for, reset_request, with_password, set_password, confirm_token, reset_confirm,
}

-- What is asked of the server; logins change nothing.
pub data Event : Type 0 where
  signs_up : ℕ → SignupRequest → Event
  googles : ℕ → String → ℕ → Option String → String → Verification → Event
  requests_reset : Bool → ℕ → String → String → Event
  confirms_reset : Bool → Bool → ℕ → ℕ → String → String → String → Event

unfoldable pub event : Bcrypt → (Claims → Option String) → Event → Accounts → Accounts
event b encode (signs_up salt q) s = (signup b encode salt q s).0
event b encode (googles salt random now id credential answer) s =
    (google_login b encode salt random now id credential answer s).0
event b encode (requests_reset writes now token e) s = (reset_request writes now token e s).0
event b encode (confirms_reset reads deletes salt now e token p) s =
    (reset_confirm b reads deletes salt now e token p s).0

unfoldable pub events : Bcrypt → (Claims → Option String) → List Event → Accounts → Accounts
events b encode [] s = s
events b encode (x ∷ xs) s = events b encode xs (event b encode x s)

-- The event does not confirm a reset of this address's password.
abbrev pub Spares : String → Event → Type 0
Spares e (confirms_reset reads deletes salt now f token p) = same_text f e ≡ false
Spares e (signs_up salt q) = Unit
Spares e (googles salt random now id credential answer) = Unit
Spares e (requests_reset writes now token f) = Unit

find_where-append :
    (p : User → Bool) (xs ys : List User) (u : User)
    → find_where p xs ≡ some u
    → find_where p (xs ++ ys) ≡ some u
unfolding find_where
find_where-append p [] ys u e = cc e
find_where-append p (x ∷ xs) ys u e = elim (Bool-cases (p x)) [
  | inl t ↦ simp t (simp t at e)
  | inr f ↦ simp f (find_where-append p xs ys u (simp f at e))
]

pub find_where-snoc :
    (p : User → Bool) (xs : List User) (u : User)
    → is_found (find_where p xs) ≡ false
    → p u ≡ true
    → find_where p (xs ++ (u ∷ [])) ≡ some u
unfolding find_where
find_where-snoc p [] u e h = simp h refl
find_where-snoc p (x ∷ xs) u e h = elim (Bool-cases (p x)) [
  | inl t ↦ cc (simp t at e)
  | inr f ↦ simp f (find_where-snoc p xs u (simp f at e) h)
]

-- A password that is set elsewhere leaves the account that is found.
find_where-other :
    (e f h : String) (xs : List User)
    → same_text f e ≡ false
    → find_where (has_email e) (update_where (has_email f) (with_password h) xs)
      ≡ find_where (has_email e) xs
unfolding find_where update_where
find_where-other e f h [] n = refl
find_where-other e f h (x ∷ xs) n =
    let ih = find_where-other e f h xs n in
    elim (Bool-cases (same_text x.email f)) [
      | inl t ↦
          let same : x.email ≡ f = (same_text_iff x.email f).0 t in
          let no : same_text x.email e ≡ false = ap (λ g. same_text g e) same ∙ n in simp (t, no) ih
      | inr t ↦ simp t (λ i. if same_text x.email e then some x else ih i)
    ]

module _ (e : String) (u : User) where
  -- The address has this account.
  abbrev pub Has : Accounts → Type 0
  Has s = find_user e s ≡ some u

  abbrev HasIn {ℓ} : {A : Type ℓ} → Accounts × A → Type 0
  HasIn r = Has r.0

  insert_hashed-Has :
      (encode : Claims → Option String) (x y f : String) (r : UserRole) (h : Option String)
      (s : Accounts)
      → Has s
      → HasIn (insert_hashed encode x y f r h s)
  insert_hashed-Has encode x y f r none s k = k
  insert_hashed-Has encode x y f r (some h) s k =
      find_where-append (has_email e) s.users (new_user s.next_id f h r ∷ []) u k

  signup-Has :
      (b : Bcrypt) (encode : Claims → Option String) (salt : ℕ) (q : SignupRequest) (s : Accounts)
      → Has s
      → HasIn (signup b encode salt q s)
  unfolding signup
  signup-Has b encode salt q s k =
      if_lem HasIn (is_blank q.email) _ _ (λ t. k)
        (λ t.
          if_lem HasIn (not (contains_at q.email)) _ _ (λ v. k)
            (λ v.
              if_lem HasIn (ltb (byte_len q.password) 6) _ _ (λ w. k)
                (λ w.
                  if_lem HasIn (is_found (find_user q.email s)) _ _ (λ x. k)
                    (λ x.
                      insert_hashed-Has encode _ _ q.email (role_of q.role) (b.hash salt q.password)
                        s k))))

  google_user-Has :
      (b : Bcrypt) (encode : Claims → Option String) (salt : ℕ) (random f : String)
      (found : Option User) (s : Accounts)
      → Has s
      → HasIn (google_user b encode salt random f found s)
  google_user-Has b encode salt random f (some v) s k = k
  google_user-Has b encode salt random f none s k =
      insert_hashed-Has encode _ _ f user (b.hash salt random) s k

  google_verified-Has :
      (b : Bcrypt) (encode : Claims → Option String) (salt : ℕ) (random : String) (now : ℕ)
      (id : String) (answer : Verification) (s : Accounts)
      → Has s
      → HasIn (google_verified b encode salt random now id answer s)
  google_verified-Has b encode salt random now id fails s k = k
  google_verified-Has b encode salt random now id refused s k = k
  google_verified-Has b encode salt random now id unreadable s k = k
  google_verified-Has b encode salt random now id (answered c) s k =
      if_lem HasIn (same_text c.aud id && (c.email_verified && ltb now c.exp)) _ _
        (λ t. google_user-Has b encode salt random c.email (find_user c.email s) s k) (λ t. k)

  google_login-Has :
      (b : Bcrypt) (encode : Claims → Option String) (salt : ℕ) (random : String) (now : ℕ)
      (id : Option String) (credential : String) (answer : Verification) (s : Accounts)
      → Has s
      → HasIn (google_login b encode salt random now id credential answer s)
  unfolding google_login
  google_login-Has b encode salt random now none credential answer s k = k
  google_login-Has b encode salt random now (some id) credential answer s k =
      if_lem HasIn (is_blank credential) _ _ (λ t. k)
        (λ t. google_verified-Has b encode salt random now id answer s k)

  reset_for-Has :
      (writes : Bool) (now : ℕ) (token f : String) (found : Option User) (s : Accounts)
      → Has s
      → HasIn (reset_for writes now token f found s)
  reset_for-Has writes now token f none s k = k
  reset_for-Has writes now token f (some v) s k = role v.role writes
    where
      role : (r : UserRole) (w : Bool) → HasIn (reset_role w now token f r s)
      role user w = k
      role admin true = k
      role admin false = k

  reset_request-Has :
      (writes : Bool) (now : ℕ) (token f : String) (s : Accounts)
      → Has s
      → HasIn (reset_request writes now token f s)
  unfolding reset_request
  reset_request-Has writes now token f s k =
      if_lem HasIn (is_blank f) _ _ (λ t. k)
        (λ t. reset_for-Has writes now token f (find_user f s) s k)

  set_password-Has :
      (deletes : Bool) (f : String) (h : Option String) (s : Accounts)
      → same_text f e ≡ false
      → Has s
      → HasIn (set_password deletes f h s)
  unfolding set_password
  set_password-Has deletes f none s n k = k
  set_password-Has deletes f (some h) s n k =
      if_lem HasIn (count_where (has_email f) s.users == 0) _ _ (λ t. k)
        (λ t.
          if_lem Has deletes _ _ (λ d. find_where-other e f h s.users n ∙ k)
            (λ d. find_where-other e f h s.users n ∙ k))

  confirm_token-Has :
      (b : Bcrypt) (deletes : Bool) (salt : ℕ) (f token p : String) (stored : Option String)
      (s : Accounts)
      → same_text f e ≡ false
      → Has s
      → HasIn (confirm_token b deletes salt f token p stored s)
  confirm_token-Has b deletes salt f token p none s n k = k
  confirm_token-Has b deletes salt f token p (some stored) s n k =
      if_lem HasIn (same_text stored token) _ _
        (λ t. set_password-Has deletes f (b.hash salt p) s n k) (λ t. k)

  event-Has :
      (b : Bcrypt) (encode : Claims → Option String) (x : Event) (s : Accounts)
      → Spares e x
      → Has s
      → Has (event b encode x s)
  unfolding event reset_confirm
  event-Has b encode (signs_up salt q) s n k = signup-Has b encode salt q s k
  event-Has b encode (googles salt random now id credential answer) s n k =
      google_login-Has b encode salt random now id credential answer s k
  event-Has b encode (requests_reset writes now token f) s n k =
      reset_request-Has writes now token f s k
  event-Has b encode (confirms_reset reads deletes salt now f token p) s n k =
      if_lem HasIn (ltb (byte_len p) 8) _ _ (λ t. k)
        (λ t.
          if_lem HasIn reads _ _ (λ r. confirm_token-Has b deletes salt f token p _ s n k) (λ r. k))

  pub events-Has :
      (b : Bcrypt) (encode : Claims → Option String) (xs : List Event) (s : Accounts)
      → All (Spares e) xs
      → Has s
      → Has (events b encode xs s)
  unfolding events
  events-Has b encode [] s n k = k
  events-Has b encode (x ∷ xs) s n k =
      events-Has b encode xs (event b encode x s) n.1 (event-Has b encode x s n.0 k)
