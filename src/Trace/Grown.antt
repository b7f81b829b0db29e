-- ===== src/Trace/Grown.antt =====
-- `addLemma` of src/pme/ic3/inductive_trace.cpp for a new cube: the trace with one more lemma keeps the invariant.
use pme.Base.{
  ℕ, zero, suc, ◌%◌, ◌^◌, ◌<◌, length-append, ◌≡◌, refl, ap, sym, ◌∙◌, subst, true, false,
  if◌then◌else◌, ◌==◌, ==_refl, ==_iff, List, [], ◌∷◌, ◌++◌, length, get_elem?, none, some, Returns,
  Bool-cases, inl, inr, arith,
}
use pme.Literal.{Cube}
use pme.Trace.FrameStore.{LemmaId, Frames, contains, frame_at}
use pme.Trace.{LemmaData, InductiveTrace, find_cube, cube_eq, add_new}
use pme.Trace.Sorting.{cube_eq→≡, cube_eq_refl}
use pme.Trace.Invariant.{stands, IsWellFormed, Inserted, add_lemma_to_frame-Inserted, get_lemma-run}
use pme.Trace.Added.{added_lemma, IsStored}

get_elem?-append :
    (xs : List LemmaData) (y : LemmaData) (j : ℕ)
    → get_elem? (xs ++ y ∷ []) j ≡ (if length xs == j then some y else get_elem? xs j)
get_elem?-append [] y zero = refl
get_elem?-append [] y (suc j) = ground arith
get_elem?-append (x ∷ xs) y zero = ground arith
get_elem?-append (x ∷ xs) y (suc j) = get_elem?-append xs y j ∙ ground arith

get_elem?-end : (xs : List LemmaData) → get_elem? xs (length xs) ≡ none
get_elem?-end [] = refl
get_elem?-end (x ∷ xs) = get_elem?-end xs

module _ (t : InductiveTrace) (wf : IsWellFormed t) (cube : Cube) (level : ℕ) (fs : Frames)
    (ins : Inserted (length t.lemmas) level t.frames fs)
    (absent : find_cube cube t.cube_to_lemma_id ≡ none) where
  abbrev grown : InductiveTrace
  grown = record {
    frames = fs;
    lemmas = t.lemmas ++ added_lemma (length t.lemmas) cube level ∷ [];
    cube_to_lemma_id = (cube, length t.lemmas) ∷ t.cube_to_lemma_id;
  }

  grown_hit :
      (j : LemmaId)
      → (length t.lemmas == j) ≡ true
      → get_elem? grown.lemmas j ≡ some (added_lemma (length t.lemmas) cube level)
  grown_hit j q = get_elem?-append t.lemmas (added_lemma (length t.lemmas) cube level) j ∙ rw q refl

  grown_miss :
      (j : LemmaId)
      → (length t.lemmas == j) ≡ false
      → get_elem? grown.lemmas j ≡ get_elem? t.lemmas j
  grown_miss j q =
      get_elem?-append t.lemmas (added_lemma (length t.lemmas) cube level) j ∙ rw q refl

  grown-ids : (j : LemmaId) (m : LemmaData) → get_elem? grown.lemmas j ≡ some m → m.id ≡ j
  grown-ids j m h = elim (Bool-cases (length t.lemmas == j)) [
    | inl q ↦
        let same : m ≡ added_lemma (length t.lemmas) cube level = cc (h, grown_hit j q) in
        ap (λ (x : LemmaData). x.id) same ∙ (==_iff (length t.lemmas) j).0 q
    | inr q ↦ wf.ids j m (sym (grown_miss j q) ∙ h)
  ]

  grown-placed :
      (k : ℕ) (j : LemmaId) → contains j (frame_at fs k) ≡ stands (get_elem? grown.lemmas j) k
  grown-placed k j = elim (Bool-cases (length t.lemmas == j)) [
    | inl q ↦
        let gone : contains j (frame_at t.frames k) ≡ false =
          subst (λ i. contains i (frame_at t.frames k) ≡ false) ((==_iff (length t.lemmas) j).0 q)
            (wf.placed k (length t.lemmas) ∙ ap (λ o. stands o k) (get_elem?-end t.lemmas)) in
        let here : contains j (frame_at fs k) ≡ (level == k) =
          ins k j ∙ elim (Bool-cases (level == k)) [ inl c ↦ rw (c, q) refl | inr c ↦ rw c gone ] in
        here ∙ sym (ap (λ o. stands o k) (grown_hit j q))
    | inr q ↦
        ins k j
        ∙ elim (Bool-cases (level == k)) [
          | inl c ↦ rw (c, q) (wf.placed k j)
          | inr c ↦ rw c (wf.placed k j)
        ]
        ∙ sym (ap (λ o. stands o k) (grown_miss j q))
  ]

  grown-known :
      (sought : Cube) (j : LemmaId)
      → find_cube sought grown.cube_to_lemma_id ≡ some j
      → (x : LemmaData) × (get_elem? grown.lemmas j ≡ some x) × (x.cube ≡ sought)
  unfolding find_cube
  grown-known sought j h = elim (Bool-cases (cube_eq cube sought)) [
    | inl c ↦
        let found : some (length t.lemmas) ≡ some j =
          subst
            (λ b.
              (if b then some (length t.lemmas) else find_cube sought t.cube_to_lemma_id) ≡ some j)
            c h in
        let same : length t.lemmas ≡ j = cc found in
        (
          added_lemma (length t.lemmas) cube level,
          grown_hit j ((==_iff (length t.lemmas) j).1 same),
          cube_eq→≡ cube sought c,
        )
    | inr c ↦
        let found : find_cube sought t.cube_to_lemma_id ≡ some j =
          subst
            (λ b.
              (if b then some (length t.lemmas) else find_cube sought t.cube_to_lemma_id) ≡ some j)
            c h in
        let (x, p, d) = wf.known sought j found in
        elim (Bool-cases (length t.lemmas == j)) [
          | inl q ↦
              let none_there : get_elem? t.lemmas j ≡ none =
                subst (λ i. get_elem? t.lemmas i ≡ none) ((==_iff (length t.lemmas) j).0 q)
                  (get_elem?-end t.lemmas) in
              absurd (cc (p, none_there))
          | inr q ↦ (x, grown_miss j q ∙ p, d)
        ]
  ]

  grown_entry : find_cube cube grown.cube_to_lemma_id ≡ some (length t.lemmas)
  unfolding find_cube
  grown_entry = rw (cube_eq_refl cube) refl

  -- Another cube is found as before.
  grown_entry_old :
      (sought : Cube) (j : LemmaId)
      → find_cube sought t.cube_to_lemma_id ≡ some j
      → find_cube sought grown.cube_to_lemma_id ≡ some j
  unfolding find_cube
  grown_entry_old sought j h = elim (Bool-cases (cube_eq cube sought)) [
    | inl c ↦
        let none_there : find_cube sought t.cube_to_lemma_id ≡ none =
          subst (λ x. find_cube x t.cube_to_lemma_id ≡ none) (cube_eq→≡ cube sought c) absent in
        absurd (cc (h, none_there))
    | inr c ↦ rw c h
  ]

  grown-indexed :
      (j : LemmaId) (m : LemmaData)
      → get_elem? grown.lemmas j ≡ some m
      → find_cube m.cube grown.cube_to_lemma_id ≡ some j
  grown-indexed j m h = elim (Bool-cases (length t.lemmas == j)) [
    | inl q ↦
        let same : added_lemma (length t.lemmas) cube level ≡ m = cc (h, grown_hit j q) in
        subst (λ (x : LemmaData). find_cube x.cube grown.cube_to_lemma_id ≡ some j) same
          (grown_entry ∙ ap some ((==_iff (length t.lemmas) j).0 q))
    | inr q ↦ grown_entry_old m.cube j (wf.indexed j m (sym (grown_miss j q) ∙ h))
  ]

  grown-IsStored : IsStored t cube level (length t.lemmas, grown)
  grown-IsStored = record {
    well_formed = record {
      ids = grown-ids;
      placed = grown-placed;
      known = grown-known;
      indexed = grown-indexed;
    };
    stored = grown_hit (length t.lemmas) (==_refl (length t.lemmas));
    indexed = grown_entry;
    others = λ j d. grown_miss j d;
    known = λ x f. absurd (cc (f, absent));
    fresh = λ f. (refl, length-append t.lemmas (added_lemma (length t.lemmas) cube level ∷ []));
  }

pub add_new-IsStored :
    (t : InductiveTrace) (wf : IsWellFormed t) (cube : Cube) (level : ℕ)
    → length t.lemmas < 2 ^ 32
    → find_cube cube t.cube_to_lemma_id ≡ none
    → Returns (add_new cube level t) (λ r. IsStored t cube level r)
unfolding add_new
add_new-IsStored t wf cube level few absent =
    let n = length t.lemmas in
    let added = added_lemma n cube level in
    let (fs, run, ins) = add_lemma_to_frame-Inserted n level t.frames in
    let fits : n % 2 ^ 32 ≡ n = omega arith in
    let here : get_elem? (t.lemmas ++ added ∷ []) n ≡ some added =
      get_elem?-append t.lemmas added n ∙ rw (==_refl n) refl in
    (
      (n, grown t wf cube level fs ins absent),
      rw (fits, get_lemma-run (record t { lemmas = t.lemmas ++ added ∷ [] }) n added here, run)
          refl,
      grown-IsStored t wf cube level fs ins absent,
    )
