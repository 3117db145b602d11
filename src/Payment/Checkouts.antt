-- ===== src/Payment/Checkouts.antt =====
-- The checkout keys of `request_payment` in apps/http-server/src/api/user/payments.rs, which keep two
-- checkouts of a seat apart, and what a request meets.
use bookit.Common.{
  ℕ, suc, Bool, ◌&&◌, Option, none, some, List, [], ◌∷◌, ◌++◌, ℤ, ◌==ℤ◌, if◌then◌else◌, String,
  same_text,
}
use bookit.SeatLock.Cluster.{Delivery, answered, unanswered, dropped, Env}

-- "{user}:{idempotency_key}", the value of a checkout key
pub record Owner : Type 0 where
  pub user_id : ℤ
  pub key : String

abbrev pub same_owner : Owner → Owner → Bool
same_owner a b = (a.user_id ==ℤ b.user_id) && same_text a.key b.key

-- The live keys "seat_checkout:{schedule}:{seat}"; each one lasts 300 seconds at most.
abbrev pub Checkouts : Type 0
Checkouts = ℤ → ℤ → Option Owner

abbrev pub put_checkout : ℤ → ℤ → Option Owner → Checkouts → Checkouts
put_checkout schedule seat o m s a = if (schedule ==ℤ s) && (seat ==ℤ a) then o else m s a

-- What a request meets: whether the pool gives a connection to the database, the first SELECT, the
-- SELECT of seats and the second SELECT are answered and the transaction is accepted; the new id; the
-- calls of the seat lock; the connection to Redis and the delivery of its commands, by number.
pub record Meets : Type 0 where
  pub connects : Bool
  pub selects : Bool
  pub loads : Bool
  pub accepts : Bool
  pub selects_again : Bool
  pub new_id : ℕ
  pub lock_env : ℕ → Env
  pub redis_connects : Bool
  pub delivery : ℕ → Delivery
  -- whether the DEL of a seat's checkout key runs
  pub deletes : ℤ → Bool

unfoldable pub delete_keys : (ℤ → Bool) → ℤ → List ℤ → Checkouts → Checkouts
delete_keys deletes schedule [] m = m
delete_keys deletes schedule (a ∷ rest) m =
    delete_keys deletes schedule rest (if deletes a then put_checkout schedule a none m else m)

pub data KeyOutcome : Type 0 where
  key_created key_held key_taken key_lost : KeyOutcome

-- GET, after a SET that found the key.
abbrev pub test_owner : Delivery → Owner → Option Owner → KeyOutcome
test_owner answered owner none = key_taken
test_owner answered owner (some o) = if same_owner o owner then key_held else key_taken
test_owner unanswered owner o = key_lost
test_owner dropped owner o = key_lost

-- SET k owner NX EX 300, with the deliveries of this command and of the GET.
unfoldable pub claim_key :
    Delivery → Delivery → Owner → ℤ → ℤ → Option Owner → Checkouts → Checkouts × KeyOutcome
claim_key answered get owner schedule a none m =
    (put_checkout schedule a (some owner) m, key_created)
claim_key answered get owner schedule a (some o) m = (m, test_owner get owner (some o))
claim_key unanswered get owner schedule a none m =
    (put_checkout schedule a (some owner) m, key_lost)
claim_key unanswered get owner schedule a (some o) m = (m, key_lost)
claim_key dropped get owner schedule a o m = (m, key_lost)

pub data Claim : Type 0 where
  -- the keys that this request created
  claimed : List ℤ → Claim
  in_progress lost : Claim

-- A key that the owner holds already is passed over; the keys that were created are deleted where
-- another checkout is in progress, and stay where a command is lost.
unfoldable pub claim_keys : Meets → Owner → ℤ → ℕ → List ℤ → List ℤ → Checkouts → Checkouts × Claim
claim_keys w owner schedule n created [] m = (m, claimed created)
claim_keys w owner schedule n created (a ∷ rest) m =
    let (m1, outcome) =
      claim_key (w.delivery n) (w.delivery (suc n)) owner schedule a (m schedule a) m in
    elim outcome [
      | key_created ↦ claim_keys w owner schedule (suc (suc n)) (created ++ (a ∷ [])) rest m1
      | key_held ↦ claim_keys w owner schedule (suc (suc n)) created rest m1
      | key_taken ↦ (delete_keys w.deletes schedule created m1, in_progress)
      | key_lost ↦ (m1, lost)
    ]
