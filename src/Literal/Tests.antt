-- ===== src/Literal/Tests.antt =====
-- Literals of src/pme/id.cpp at concrete values, and the theorems at them.
use pme.Base.{◌≡◌, refl, false, not, if◌then◌else◌, ltb, arith}
use pme.Literal.{min_id, prime, unprime, nprimes, negate, id_true, is_negated, strip}
use pme.Literal.Laws.{unprime-prime, negate-prime, negate_laws}

true_is_three : id_true ≡ 3
unfolding negate
true_is_three = refl

-- The count is written once: priming a primed literal again keeps one prime.
prime_twice : prime (prime 6 1) 1 ≡ prime 6 1
unfolding prime
prime_twice = refl

negate_laws_example :
    (negate (negate 7) ≡ 7)
    × (is_negated (negate 7) ≡ not (is_negated 7))
    × (strip (negate 7) ≡ strip 7)
    × (is_negated (strip 7) ≡ false)
negate_laws_example = negate_laws 7

unprime-prime_example :
    (unprime (prime 7 2) ≡ 7) × (nprimes (prime 7 2) ≡ (if ltb 7 min_id then 0 else 2))
unprime-prime_example = unprime-prime 7 2 (omega arith) (omega arith)

negate-prime_example : negate (prime 7 2) ≡ prime (negate 7) 2
negate-prime_example = negate-prime 7 2 (omega arith) (omega arith)
