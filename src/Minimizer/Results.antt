-- ===== src/Minimizer/Results.antt =====
-- `addMinimalProof` and `getProof` of src/pme/minimization/minimization.cpp: the proofs that come back.
use pme.Base.{
  ℕ, zero, suc, ◌+◌, ◌<◌, ◌≡◌, refl, sym, ap₂, ◌∙◌, true, ltb, lt→ltb, List, [], ◌∷◌, ◌++◌, map,
  some, length, length-append, get_elem?, All, All-append, All-member, All-from_member, Returns, ok,
  arith,
}
use pme.Base.Sorting.{sorted_list, member-sorted_list}
use pme.Literal.{ClauseId, ClauseVec}
use pme.Minimizer.Property.{get_elem?-append_left, get_elem?-append_here}
use pme.Minimizer.{ProofMinimizer, at, get_clauses, get_proof, num_proofs, add_minimal_proof}

abbrev pub InProof : ClauseVec → List ClauseId → Type 0
InProof proof ids = All (λ id. id < length proof) ids

-- The property and all proofs found are made of clauses of the proof.
pub record IsValid (p : ProofMinimizer) : Type 0 where
  pub property_in : p.property < length p.proof
  pub proofs_in : All (InProof p.proof) p.minimal_proofs

elem_at {ℓ} :
    {A : Type ℓ} (xs : List A) (i : ℕ) → i < length xs → (a : A) × (get_elem? xs i ≡ some a)
elem_at [] i l = absurd (omega arith)
elem_at (x ∷ xs) zero l = (x, refl)
elem_at (x ∷ xs) (suc i) l = elem_at xs i (omega arith)

at-run {ℓ} : {A : Type ℓ} (xs : List A) (i : ℕ) (a : A) → get_elem? xs i ≡ some a → at xs i ≡ ok a
unfolding at
at-run xs i a e = rw (at, e) refl

-- Each clause is the one with the number in the proof.
pub get_clauses-Returns :
    (proof : ClauseVec) (ids : List ClauseId)
    → InProof proof ids
    → Returns (get_clauses proof ids) (λ cs. map some cs ≡ map (get_elem? proof) ids)
unfolding get_clauses
get_clauses-Returns proof [] h = ([], refl, refl)
get_clauses-Returns proof (id ∷ ids) h =
    let (c, e) = elem_at proof id h.0 in
    let (cs, run, q) = get_clauses-Returns proof ids h.1 in
    (c ∷ cs, rw (at-run proof id c e, run) refl, ap₂ (λ a as'. a ∷ as') (sym e) q)

sorted-InProof :
    (proof : ClauseVec) (ids : List ClauseId) → InProof proof ids → InProof proof (sorted_list ids)
sorted-InProof proof ids h =
    All-from_member (λ id. id < length proof) (sorted_list ids)
      (λ x m. All-member (λ id. id < length proof) x ids h (sym (member-sorted_list x ids) ∙ m))

-- What the new proof is, and that the ones before it are kept.
pub record IsAdded (ids : List ClauseId) (p q : ProofMinimizer) : Type 0 where
  pub valid : IsValid q
  pub count : num_proofs q ≡ num_proofs p + 1
  pub newest :
      Returns
        (get_proof (num_proofs p) q)
        (λ cs. map some cs ≡ map (get_elem? p.proof) (sorted_list ids))
  pub older : (i : ℕ) → i < num_proofs p → get_proof i q ≡ get_proof i p

module _ (ids : List ClauseId) (p : ProofMinimizer) (v : IsValid p) (h : InProof p.proof ids) where
  -- Where all numbers are those of clauses: after `addMinimalProof`, `getProof` gives at the next index the
  -- clauses of the new proof in the order of their numbers, and at the indices before it what it gave before.
  pub add_minimal_proof-IsAdded : IsAdded ids p (add_minimal_proof ids p)
  unfolding add_minimal_proof get_proof num_proofs
  add_minimal_proof-IsAdded =
      let size : length (p.minimal_proofs ++ sorted_list ids ∷ []) ≡ length p.minimal_proofs + 1 =
        length-append p.minimal_proofs (sorted_list ids ∷ []) in
      record {
        valid = record {
          property_in = v.property_in;
          proofs_in =
              All-append (InProof p.proof) p.minimal_proofs (sorted_list ids ∷ []) v.proofs_in
                (sorted-InProof p.proof ids h, tt);
        };
        count = size;
        newest =
            let (cs, run, q) =
              get_clauses-Returns p.proof (sorted_list ids) (sorted-InProof p.proof ids h) in
            let here =
              at-run (p.minimal_proofs ++ sorted_list ids ∷ []) (length p.minimal_proofs)
                (sorted_list ids) (get_elem?-append_here p.minimal_proofs (sorted_list ids)) in
            let bound : ltb (length p.minimal_proofs)
                  (length (p.minimal_proofs ++ sorted_list ids ∷ []))
                ≡ true =
              ground (arith, size) in
            (cs, rw (bound, here) run, q);
        older = λ i l.
            let (old, e) = elem_at p.minimal_proofs i l in
            let old_run = at-run p.minimal_proofs i old e in
            let new_run =
              at-run (p.minimal_proofs ++ sorted_list ids ∷ []) i old
                (get_elem?-append_left p.minimal_proofs (sorted_list ids ∷ []) i l ∙ e) in
            let bound : ltb i (length (p.minimal_proofs ++ sorted_list ids ∷ [])) ≡ true =
              ground (arith, size) in
            rw (bound, lt→ltb i (length p.minimal_proofs) l, new_run, old_run) refl;
      }
