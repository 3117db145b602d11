-- ===== src/Accounts/Reset.antt =====
-- What a confirmed reset of a password takes and leaves.
use bookit.Common.{
  ℕ, ◌<◌, ◌≡◌, refl, ap, inl, inr, Bool, true, false, Option, none, some, List, [], ◌∷◌, ltb, ◌==◌,
  String, same_text, same_text_iff, byte_len, All, arith, Bool-cases, if_lem,
}
use bookit.Payment.Tables.{find_where, update_where, count_where}
use bookit.Accounts.Users.{User, Bcrypt, Result, ok, err, AuthError, Accounts, Claims, has_email}
use bookit.Accounts.Password.{live_token, with_password, set_password, confirm_token, reset_confirm}
use bookit.Accounts.Login.{Event, events, Has}
use bookit.Accounts.SignedUp.{Opens}
use bookit.Accounts.Tokens.{AsksNot, events-NoToken}

-- An account is found where the update counts one, and it is found with the new password after it.
counted-found :
    (e h : String) (xs : List User)
    → (count_where (has_email e) xs == 0) ≡ false
    → (u : User) × (find_where (has_email e) (update_where (has_email e) (with_password h) xs)
        ≡ some (with_password h u))
unfolding count_where find_where update_where
counted-found e h [] n = cc n
counted-found e h (x ∷ xs) n = elim (Bool-cases (same_text x.email e)) [
  | inl t ↦ (x, simp (t, t) refl)
  | inr f ↦ let (u, k) = counted-found e h xs (ground (arith, n, f)) in (u, simp (f, f) k)
]

-- What a reset leaves: no token of the address, and an account with the new password.
abbrev pub IsReset : Bcrypt → String → String → Accounts → Type 0
IsReset b e p s = (s.tokens e ≡ none) × ((u : User) × (Has e u s × Opens b p u))

set_password-IsReset :
    (b : Bcrypt) (salt : ℕ) (e p : String) (h : Option String) (s : Accounts)
    → b.hash salt p ≡ h
    → (set_password true e h s).1 ≡ ok tt
    → IsReset b e p (set_password true e h s).0
unfolding set_password
set_password-IsReset b salt e p none s a = λ k. cc k
set_password-IsReset b salt e p (some h) s a =
    if_lem (λ (r : Accounts × Result (Unit {0})). r.1 ≡ ok tt → IsReset b e p r.0)
      (count_where (has_email e) s.users == 0) _ _ (λ n k. cc k)
      (λ n k.
        let (u, f) = counted-found e h s.users n in
        (
          simp ((same_text_iff e e).1 refl) refl,
          (with_password h u, (f, b.verify-hash salt p h a)),
        ))

confirm_token-IsReset :
    (b : Bcrypt) (salt : ℕ) (e token p : String) (stored : Option String) (s : Accounts)
    → (confirm_token b true salt e token p stored s).1 ≡ ok tt
    → (stored ≡ some token) × IsReset b e p (confirm_token b true salt e token p stored s).0
confirm_token-IsReset b salt e token p none s = λ k. cc k
confirm_token-IsReset b salt e token p (some t) s =
    if_lem
      (λ (r : Accounts × Result (Unit {0})).
        r.1 ≡ ok tt → (some t ≡ some token) × IsReset b e p r.0)
      (same_text t token) _ _
      (λ m k. (ap some ((same_text_iff t token).0 m), set_password-IsReset b salt e p _ s refl k))
      (λ m k. cc k)

-- A token that GET gives was set with a deadline that has not come.
live_token-some :
    (now : ℕ) (o : Option (String × ℕ)) (token : String)
    → live_token now o ≡ some token
    → (deadline : ℕ) × ((o ≡ some (token, deadline)) × (now < deadline))
live_token-some now none token k = cc k
live_token-some now (some (t, deadline)) token k = elim (Bool-cases (ltb now deadline)) [
  | inl l ↦
      let same : t ≡ token = cc (simp l at k) in
      (deadline, (ap (λ x. some (x, deadline)) same, ground (arith, l)))
  | inr l ↦ cc (simp l at k)
]

confirmed :
    (b : Bcrypt) (reads : Bool) (salt now : ℕ) (e token p : String) (s : Accounts)
    → (reset_confirm b reads true salt now e token p s).1 ≡ ok tt
    → (live_token now (s.tokens e) ≡ some token)
      × IsReset b e p (reset_confirm b reads true salt now e token p s).0
unfolding reset_confirm
confirmed b reads salt now e token p s =
    let P : Accounts × Result (Unit {0}) → Type 0 =
      λ r. r.1 ≡ ok tt → (live_token now (s.tokens e) ≡ some token) × IsReset b e p r.0 in
    if_lem P (ltb (byte_len p) 8) _ _ (λ t k. cc k)
      (λ t.
        if_lem P reads _ _
          (λ r k. confirm_token-IsReset b salt e token p (live_token now (s.tokens e)) s k)
          (λ r k. cc k))

-- A confirmation without a token that Redis holds is refused, whatever it says.
no_token :
    (b : Bcrypt) (reads deletes : Bool) (salt now : ℕ) (e token p : String) (s : Accounts)
    → s.tokens e ≡ none
    → (x : AuthError) × ((reset_confirm b reads deletes salt now e token p s).1 ≡ err x)
unfolding reset_confirm
no_token b reads deletes salt now e token p s h = elim (Bool-cases (ltb (byte_len p) 8)) [
  | inl t ↦ (AuthError.bad_request "Password must be at least 8 characters.", simp t refl)
  | inr t ↦ elim (Bool-cases reads) [
    | inl r ↦ (
      AuthError.expired "Reset token not found or has expired. Please request a new one.",
      simp (t, r, h) refl,
    )
    | inr r ↦ (AuthError.internal "Cache error.", simp (t, r) refl)
  ]
]

-- A reset that is confirmed, and whose DEL reaches Redis, named the token that was stored for the address
-- with a deadline that has not come; it leaves an account of the address that the new password opens. After
-- it, whoever signs up, comes from Google, or asks for or confirms resets, as long as nobody asks for a token
-- of this address, every confirmation for the address is answered with an error.
pub reset_confirm_once :
    (b : Bcrypt) (reads : Bool) (salt now : ℕ) (e token p : String) (s : Accounts)
    (encode : Claims → Option String) (xs : List Event) (reads' deletes : Bool) (salt' now' : ℕ)
    (token' p' : String)
    → (reset_confirm b reads true salt now e token p s).1 ≡ ok tt
    → All (AsksNot e) xs
    → ((deadline : ℕ) × ((s.tokens e ≡ some (token, deadline)) × (now < deadline)))
      × (((u : User) × (Has e u (reset_confirm b reads true salt now e token p s).0 × Opens b p u))
          × ((x : AuthError) × ((reset_confirm b reads' deletes salt' now' e token' p'
                  (events b encode xs (reset_confirm b reads true salt now e token p s).0)).1
                ≡ err x)))
reset_confirm_once b reads salt now e token p s encode xs reads' deletes salt' now' token' p' k n =
    let both = confirmed b reads salt now e token p s k in
    (
      live_token-some now (s.tokens e) token both.0,
      (
        both.1.1,
        no_token b reads' deletes salt' now' e token' p' _
            (events-NoToken e b encode xs _ n both.1.0),
      ),
    )
