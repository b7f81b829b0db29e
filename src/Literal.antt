-- ===== src/Literal.antt =====
-- src/pme/id.h, src/pme/id.cpp and the types of src/pme/pme.h: 64-bit literals with a sign in the
-- lowest bit and a count of primes in the highest 16.
pub mod Laws
mod Tests
use Prim.Native.Nat.{bit_and, bit_or, bit_xor}
use pme.Base.{
  ℕ, ◌+◌, ◌-◌, ◌*◌, ◌/◌, ◌%◌, ◌^◌, Bool, not, ◌||◌, if◌then◌else◌, ltb, leb, ◌==◌, List, map,
}

-- `uint64_t`
abbrev pub PmeId : Type 0
PmeId = ℕ

abbrev pub ClauseId : Type 0
ClauseId = ℕ

abbrev pub Clause : Type 0
Clause = List PmeId

abbrev pub Cube : Type 0
Cube = List PmeId

abbrev pub ClauseVec : Type 0
ClauseVec = List Clause

abbrev pub word_mod : ℕ
word_mod = 2 ^ 64

abbrev pub id_null : PmeId
id_null = 0

abbrev pub id_false : PmeId
id_false = 2

abbrev pub prime_bits : ℕ
prime_bits = 16

abbrev pub prime_shift : ℕ
prime_shift = 8 * 8 - prime_bits

abbrev pub max_primes : ℕ
max_primes = 2 ^ prime_bits - 1

abbrev pub max_id : PmeId
max_id = (word_mod - 1) / 2 ^ prime_bits

abbrev pub id_incr : ℕ
id_incr = 2

abbrev pub min_id : PmeId
min_id = id_false + id_incr

abbrev pub unprime_mask : PmeId
unprime_mask = max_id

-- `~UNPRIME_MASK`
abbrev pub primes_mask : PmeId
primes_mask = word_mod - 1 - unprime_mask

unfoldable pub unprime : PmeId → PmeId
unprime id = bit_and id unprime_mask

-- `true` and `false` are not primed. The assertion `n <= MAX_PRIMES` is a hypothesis where a law
-- needs it; past it the shift drops the high bits of the count.
unfoldable pub prime : PmeId → ℕ → PmeId
prime id n = if ltb id min_id then id else bit_or id ((n * 2 ^ prime_shift) % word_mod)

unfoldable pub nprimes : PmeId → ℕ
nprimes id = bit_and id primes_mask / 2 ^ prime_shift

unfoldable pub is_negated : PmeId → Bool
is_negated id = not (bit_and id 1 == 0)

unfoldable pub negate : PmeId → PmeId
negate id = bit_xor id 1

abbrev pub id_true : PmeId
unfolding negate
id_true = negate id_false

unfoldable pub is_valid_id : PmeId → Bool
unfolding negate
is_valid_id id = leb min_id id || id == id_true || id == id_false

unfoldable pub strip : PmeId → PmeId
unfolding is_negated negate
strip id = if is_negated id then negate id else id

unfoldable pub negate_vec : List PmeId → List PmeId
negate_vec vec = map negate vec

unfoldable pub prime_clause : Clause → ℕ → Clause
prime_clause cls n = map (λ lit. prime lit n) cls

unfoldable pub unprime_clause : Clause → Clause
unprime_clause cls = map unprime cls

unfoldable pub prime_clauses : ClauseVec → ℕ → ClauseVec
prime_clauses vec n = map (λ cls. prime_clause cls n) vec
