-- ===== src/SeatLock/Route.antt =====
-- `crc16` and `pool_for_seat` of packages/redis-conn/src/single_node_lock.rs.
use Prim.Native.Nat.{bit_and, bit_xor}
use bookit.Common.{
  ℕ, zero, suc, ◌+◌, ◌*◌, ◌/◌, ◌%◌, ◌^◌, ◌<◌, ◌≡◌, refl, ℤ, pos, negsuc, List, [], ◌∷◌, ◌++◌,
  Option, none, some, ltb, ◌==◌, if◌then◌else◌, arith,
}
use bookit.Redis.Interface.{Redis}
use bookit.SeatLock.Cluster.{Cluster}

-- The decimal digits of a number as ASCII bytes, in front of `acc`; the fuel is above the number.
decimal_from : ℕ → ℕ → List ℕ → List ℕ
decimal_from zero n acc = acc
decimal_from (suc f) n acc =
    let rest = decimal_from f (n / 10) ((b'0' + n % 10) ∷ acc) in
    if ltb n 10 then (b'0' + n) ∷ acc else rest

-- `format!("{}", x)` of an `i32`.
unfoldable pub decimal : ℤ → List ℕ
unfolding decimal_from
decimal (pos n) = decimal_from (suc n) n []
decimal (negsuc n) = b'-' ∷ decimal_from (suc (suc n)) (suc n) []

-- One round of the inner loop: a left shift of a `u16`, and the polynomial if a bit fell out.
crc16_round : ℕ → ℕ
crc16_round crc =
    if bit_and crc 0x8000 == 0 then crc * 2 % 2 ^ 16 else bit_xor (crc * 2 % 2 ^ 16) 0x1021

crc16_rounds : ℕ → ℕ → ℕ
crc16_rounds zero crc = crc
crc16_rounds (suc n) crc = crc16_rounds n (crc16_round crc)

crc16_from : ℕ → List ℕ → ℕ
crc16_from crc [] = crc
crc16_from crc (byte ∷ rest) = crc16_from (crc16_rounds 8 (bit_xor crc (byte * 2 ^ 8))) rest

unfoldable pub crc16 : List ℕ → ℕ
unfolding crc16_from crc16_rounds crc16_round
crc16 bytes = crc16_from 0 bytes

-- The index of the pool that a seat belongs to.
unfoldable pub pool_index : ℕ → ℤ → ℤ → Option ℕ
pool_index size showtime_id seat_id =
    if size == 0 then none else some (crc16 (decimal showtime_id ++ b':' ∷ decimal seat_id) % size)

abbrev pub pool_for_seat : (R : Redis) → Cluster R → ℤ → ℤ → Option ℕ
pool_for_seat R c showtime_id seat_id = pool_index c.size showtime_id seat_id

pub pool_index-lt : (size : ℕ) (s a : ℤ) (i : ℕ) → pool_index size s a ≡ some i → i < size
unfolding pool_index
pool_index-lt size s a i h = ground arith

-- The check value that the unit test of the source asserts, for "123456789".
crc16_standard : crc16 (49 ∷ 50 ∷ 51 ∷ 52 ∷ 53 ∷ 54 ∷ 55 ∷ 56 ∷ 57 ∷ []) ≡ 0x31c3
unfolding crc16
crc16_standard = refl

decimal_test : decimal (pos 2047) ≡ 50 ∷ 48 ∷ 52 ∷ 55 ∷ []
unfolding decimal
decimal_test = refl
