-- ===== src/Literal/Laws.antt =====
-- Signs and primes of src/pme/id.cpp as arithmetic, and the laws between them.
use Prim.Native.Nat.{bit_and}
use pme.Base.{
  ℕ, ◌+◌, ◌-◌, ◌*◌, ◌/◌, ◌%◌, ◌^◌, ◌≤◌, ◌<◌, ◌≡◌, true, false, not, if◌then◌else◌, ltb, ◌==◌, arith,
  Bool-cases, inl, inr, ltb→lt,
}
use pme.Base.Bits.{bit_and-one, bit_xor-one, bit_or_shifted, bit_and_low, bit_and_high}
use pme.Literal.{
  PmeId, min_id, max_id, max_primes, word_mod, unprime, prime, nprimes, is_negated, negate, strip,
}

pub is_negated_lem : (id : PmeId) → is_negated id ≡ not (id % 2 == 0)
unfolding is_negated
is_negated_lem id = rw (bit_and-one id)

pub negate_lem : (id : PmeId) → negate id ≡ id / 2 * 2 + (1 - id % 2)
unfolding negate
negate_lem id = bit_xor-one id

pub strip_lem : (id : PmeId) → strip id ≡ id / 2 * 2
unfolding strip
strip_lem id = ground (arith, is_negated_lem id, negate_lem id)

-- Negation is an involution that flips the sign and keeps the variable.
pub negate_laws :
    (id : PmeId)
    → (negate (negate id) ≡ id)
      × (is_negated (negate id) ≡ not (is_negated id))
      × (strip (negate id) ≡ strip id)
      × (is_negated (strip id) ≡ false)
negate_laws id = (
  omega (arith, negate_lem id, negate_lem (negate id)),
  ground (arith, is_negated_lem id, is_negated_lem (negate id), negate_lem id),
  omega (arith, negate_lem id, strip_lem id, strip_lem (negate id)),
  ground (arith, strip_lem id, is_negated_lem (strip id)),
)

pub unprime_lem : (id : PmeId) → unprime id ≡ id % 2 ^ 48
unfolding unprime
unprime_lem id =
    let e : id / 2 ^ 48 * 2 ^ 48 + id % 2 ^ 48 ≡ id = omega arith in
    rw e at (bit_and_low 48 (id / 2 ^ 48) (id % 2 ^ 48) (omega arith))

pub nprimes_lem : (id : PmeId) → id < word_mod → nprimes id ≡ id / 2 ^ 48
unfolding nprimes
nprimes_lem id h =
    let e : id / 2 ^ 48 * 2 ^ 48 + id % 2 ^ 48 ≡ id = omega arith in
    let high = bit_and_high 48 (2 ^ 16 - 1) (id / 2 ^ 48) (id % 2 ^ 48) (omega arith) in
    let low = bit_and_low 16 0 (id / 2 ^ 48) (omega arith) in
    let e' : 0 * 2 ^ 16 + id / 2 ^ 48 ≡ id / 2 ^ 48 = omega arith in
    let masked : bit_and (id / 2 ^ 48) (2 ^ 16 - 1) ≡ id / 2 ^ 48 = rw e' at low in
    omega (arith, rw e at high, masked)

prime_const : (id n : ℕ) → ltb id min_id ≡ true → prime id n ≡ id
unfolding prime
prime_const id n h = rw h

pub prime_lem :
    (id n : ℕ) → id ≤ max_id → n ≤ max_primes → min_id ≤ id → prime id n ≡ n * 2 ^ 48 + id
unfolding prime
prime_lem id n h k l =
    let e : (n * 2 ^ 48) % word_mod ≡ n * 2 ^ 48 = omega arith in
    ground (arith, e, bit_or_shifted 48 n id (omega arith))

-- Of an unprimed literal and a count of primes that fits, the primed literal keeps both: `unprime`
-- gives the literal back, and `nprimes` the count, which is 0 for the constants.
pub unprime-prime :
    (id n : ℕ)
    → id ≤ max_id
    → n ≤ max_primes
    → (unprime (prime id n) ≡ id) × (nprimes (prime id n) ≡ (if ltb id min_id then 0 else n))
unprime-prime id n h k = elim (Bool-cases (ltb id min_id)) [
  | inl c ↦
      let e = prime_const id n c in
      rw (c, e)
        (
          omega (arith, unprime_lem id, ltb→lt id min_id c),
          omega (arith, nprimes_lem id (omega arith), ltb→lt id min_id c),
        )
  | inr c ↦
      let e = prime_lem id n h k (ground arith) in
      rw (c, e)
        (
          omega (arith, unprime_lem (n * 2 ^ 48 + id)),
          omega (arith, nprimes_lem (n * 2 ^ 48 + id) (omega arith)),
        )
]

-- Priming by a count that fits and negation commute on unprimed literals.
pub negate-prime :
    (id n : ℕ) → id ≤ max_id → n ≤ max_primes → negate (prime id n) ≡ prime (negate id) n
negate-prime id n h k = elim (Bool-cases (ltb id min_id)) [
  | inl c ↦
      let c' : ltb (negate id) min_id ≡ true = ground (arith, negate_lem id) in
      rw (prime_const id n c, prime_const (negate id) n c')
  | inr c ↦
      rw
        (
          prime_lem id n h k (ground arith),
          prime_lem (negate id) n (omega (arith, negate_lem id)) k (ground (arith, negate_lem id)),
        )
        (omega (arith, negate_lem id, negate_lem (n * 2 ^ 48 + id)))
]
