-- ===== src/Support/Tests.antt =====
-- Runs of src/pme/util/find_minimal_support.cpp over the chain of latches, and its theorem at them.
use pme.Base.{◌≡◌, refl, true, List, [], ◌∷◌, Returns, member, All-member, ok}
use pme.Base.Sorting.{sorted_list, insert_sorted, upper_bound}
use pme.Base.Distinct.{Distinct}
use pme.Literal.{ClauseId}
use pme.Checker.{AllKnown}
use pme.Checker.Chain.{chain, in_chain}
use pme.Support.{support_solve, support_loop, find_minimal_support}
use pme.Support.Smaller.{IsSupport, find_minimal_support-IsSupport}

unfoldable pub support_program : Unit {0}
unfolding member sorted_list insert_sorted upper_bound support_solve support_loop
    find_minimal_support
support_program = tt

abbrev frame : List ClauseId
frame = 4 ∷ 0 ∷ 2 ∷ []

-- The latch takes the value of its predecessor.
supported : find_minimal_support chain frame 3 0 ≡ ok (2 ∷ [], 2)
unfolding support_program
supported = refl

unsupported : find_minimal_support chain frame 7 0 ≡ ok (0 ∷ 2 ∷ 4 ∷ [], 3)
unfolding support_program
unsupported = refl

frame-known : AllKnown chain frame
frame-known id h = All-member (λ x. in_chain x ≡ true) id frame (refl, (refl, (refl, tt))) h

frame-Distinct : Distinct frame
unfolding support_program
frame-Distinct = (refl, (refl, (refl, tt)))

find_minimal_support-IsSupport_example :
    Returns (find_minimal_support chain frame 3 0) (λ r. IsSupport chain 3 frame r.0)
find_minimal_support-IsSupport_example =
    find_minimal_support-IsSupport chain 3 refl frame 0 frame-known frame-Distinct
