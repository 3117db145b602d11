-- ===== src/Accounts/SignedUp.antt =====
-- A sign-up followed by a login, and a reset of a password followed by a second one.
use bookit.Common.{
  ℕ, ◌≡◌, refl, sym, ap, subst, ◌∙◌, true, false, not, Option, none, some, List, ltb, ◌==◌, String,
  same_text_iff, is_blank, byte_len, contains_at, All, arith, if_lem,
}
use bookit.Payment.Tables.{is_found}
use bookit.Accounts.Users.{
  UserRole, User, Bcrypt, Result, ok, Claims, Accounts, has_email, find_user, role_of, claims_of,
  new_user, token_answer, token_for, insert_hashed, SignupRequest, signup, login,
}
use bookit.Accounts.Login.{Event, events, Spares, Has, events-Has, find_where-snoc}

-- The account has a hash that the password verifies against.
abbrev pub Opens : Bcrypt → String → User → Type 0
Opens b p u = b.verify p u.password_hash ≡ some true

-- Whoever has the password of the account that is found logs in.
login-Has :
    (b : Bcrypt) (encode : Claims → Option String) (e p : String) (u : User) (s : Accounts)
    → is_blank e ≡ false
    → (byte_len p == 0) ≡ false
    → Has e u s
    → Opens b p u
    → login b encode e p s ≡ token_for encode "Login succeeded but token failed." u
unfolding login
login-Has b encode e p u s x y h k = simp (x, y, h, k) refl

-- What a sign-up that is answered with a token leaves: an account of the address, whose password it is.
abbrev pub SignedUp : Bcrypt → SignupRequest → Claims → Accounts → Type 0
SignedUp b q c s =
    (u : User) × (Has q.email u s
      × (Opens b q.password u
          × ((claims_of u ≡ c)
              × ((is_blank q.email ≡ false) × ((byte_len q.password == 0) ≡ false)))))

token_for_ok :
    (failure : String) (u : User) (o : Option String) (t : String) (c : Claims)
    → token_answer failure u o ≡ ok (t, c)
    → (o ≡ some t) × (claims_of u ≡ c)
token_for_ok failure u none t c e = cc e
token_for_ok failure u (some x) t c e = (cc e, cc e)

insert_hashed-SignedUp :
    (b : Bcrypt) (encode : Claims → Option String) (no_hash no_token : String) (salt : ℕ)
    (q : SignupRequest) (r : UserRole) (h : Option String) (s : Accounts) (t : String) (c : Claims)
    → b.hash salt q.password ≡ h
    → is_found (find_user q.email s) ≡ false
    → is_blank q.email ≡ false
    → (byte_len q.password == 0) ≡ false
    → (insert_hashed encode no_hash no_token q.email r h s).1 ≡ ok (t, c)
    → SignedUp b q c (insert_hashed encode no_hash no_token q.email r h s).0
insert_hashed-SignedUp b encode no_hash no_token salt q r none s t c a f x y e = cc e
insert_hashed-SignedUp b encode no_hash no_token salt q r (some h) s t c a f x y e =
    let u = new_user s.next_id q.email h r in
    (
      u,
      (
        find_where-snoc (has_email q.email) s.users u f ((same_text_iff q.email q.email).1 refl),
        (
          b.verify-hash salt q.password h a,
          ((token_for_ok _ u (encode (claims_of u)) t c e).1, (x, y)),
        ),
      ),
    )

signup-SignedUp :
    (b : Bcrypt) (encode : Claims → Option String) (salt : ℕ) (q : SignupRequest) (s : Accounts)
    (t : String) (c : Claims)
    → (signup b encode salt q s).1 ≡ ok (t, c)
    → SignedUp b q c (signup b encode salt q s).0
unfolding signup
signup-SignedUp b encode salt q s t c =
    let P : Accounts × Result (String × Claims) → Type 0 =
      λ r. r.1 ≡ ok (t, c) → SignedUp b q c r.0 in
    if_lem P (is_blank q.email) _ _ (λ x e. cc e)
      (λ x.
        if_lem P (not (contains_at q.email)) _ _ (λ y e. cc e)
          (λ y.
            if_lem P (ltb (byte_len q.password) 6) _ _ (λ z e. cc e)
              (λ z.
                if_lem P (is_found (find_user q.email s)) _ _ (λ f e. cc e)
                  (λ f.
                    insert_hashed-SignedUp b encode _ _ salt q (role_of q.role)
                      (b.hash salt q.password) s t c refl f x (ground (arith, z))))))

-- Who signed up and got a token can log in later with the same address and password, and gets a token for the
-- same id, address and role, wherever a token is encoded: whoever else signs up, comes from Google or asks
-- for or confirms a reset, as long as no reset of this address's password is confirmed.
pub signup-login :
    (b : Bcrypt) (encode later : Claims → Option String) (salt : ℕ) (q : SignupRequest)
    (s : Accounts) (t u : String) (c : Claims) (xs : List Event)
    → (signup b encode salt q s).1 ≡ ok (t, c)
    → All (Spares q.email) xs
    → later c ≡ some u
    → login b later q.email q.password (events b encode xs (signup b encode salt q s).0) ≡ ok (u, c)
signup-login b encode later salt q s t u c xs e n k =
    let (a, (h, (o, (same, (x, y))))) = signup-SignedUp b encode salt q s t c e in
    login-Has b later q.email q.password a _ x y (events-Has q.email a b encode xs _ n h) o
    ∙ subst (λ z. token_answer "Login succeeded but token failed." a (later z) ≡ ok (u, c))
        (sym same)
        (ap (token_answer "Login succeeded but token failed." a) k ∙ ap (λ z. ok (u, z)) same)
