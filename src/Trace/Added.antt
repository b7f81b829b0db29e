-- ===== src/Trace/Added.antt =====
-- `addLemma` of src/pme/ic3/inductive_trace.cpp for a cube that is known: it keeps the invariant.
use pme.Base.{
  ℕ, ◌≤◌, ◌≡◌, refl, sym, ap, ◌∙◌, subst, true, false, if◌then◌else◌, leb, ◌==◌, ==_iff, get_elem?,
  zero, suc, ◌+◌, List, [], ◌∷◌, length, none, some, ok, Returns, Bool-cases, inl, inr, arith,
}
use pme.Literal.{Cube}
use pme.Trace.FrameStore.{
  LemmaId, Frames, contains, frame_at, set_at, add_lemma_to_frame, remove_lemma_from_frame,
}
use pme.Trace.{LemmaData, InductiveTrace, find_cube, store, add_known}
use pme.Trace.Invariant.{
  IsWellFormed, add_lemma_to_frame-Inserted, remove_lemma_from_frame-Erased, store-IsWellFormed,
  stored_hit, stored_miss, stands,
}
use pme.Trace.Preserved.{active_there, at_level, Erased-moved, Inserted-moved, at_new_level}

-- The lemma that `addLemma` stores.
abbrev pub added_lemma : LemmaId → Cube → ℕ → LemmaData
added_lemma id cube level = record { id = id; cube = cube; level = level; deleted = false }

-- What `addLemma` leaves for a sorted cube: its lemma stands, not deleted, at the level, and the map leads to
-- it. A known cube keeps its number and the number of lemmas; a new one takes the next. The others stay.
pub record IsStored (t : InductiveTrace) (cube : Cube) (level : ℕ) (r : LemmaId × InductiveTrace)
    : Type 0 where
  pub well_formed : IsWellFormed r.1
  pub stored : get_elem? r.1.lemmas r.0 ≡ some (added_lemma r.0 cube level)
  pub indexed : find_cube cube r.1.cube_to_lemma_id ≡ some r.0
  pub others : (j : LemmaId) → (r.0 == j) ≡ false → get_elem? r.1.lemmas j ≡ get_elem? t.lemmas j
  pub known :
      (id : LemmaId)
      → find_cube cube t.cube_to_lemma_id ≡ some id
      → (r.0 ≡ id) × (length r.1.lemmas ≡ length t.lemmas)
  pub fresh :
      find_cube cube t.cube_to_lemma_id ≡ none
      → (r.0 ≡ length t.lemmas) × (length r.1.lemmas ≡ length t.lemmas + 1)

length-set_at {ℓ} : {A : Type ℓ} (i : ℕ) (a : A) (xs : List A) → length (set_at i a xs) ≡ length xs
unfolding set_at
length-set_at i a [] = refl
length-set_at zero a (x ∷ xs) = refl
length-set_at (suc i) a (x ∷ xs) = omega (arith, length-set_at i a xs)

length-store :
    (l : LemmaData) (fs : Frames) (t : InductiveTrace)
    → length (store l fs t).lemmas ≡ length t.lemmas
unfolding store
length-store l fs t = length-set_at l.id l t.lemmas

store-map :
    (l : LemmaData) (fs : Frames) (t : InductiveTrace)
    → (store l fs t).cube_to_lemma_id ≡ t.cube_to_lemma_id
unfolding store
store-map l fs t = refl

add_active_run :
    (t : InductiveTrace) (level : ℕ) (l : LemmaData) (fs fs' : Frames)
    → l.deleted ≡ false
    → l.level ≤ level
    → remove_lemma_from_frame l.id l.level t.frames ≡ ok fs
    → add_lemma_to_frame l.id level fs ≡ ok fs'
    → add_known l level t ≡ ok (l.id, store (record l { level = level; deleted = false }) fs' t)
unfolding add_known
add_active_run t level l fs fs' active le run run' =
    let c : leb l.level level ≡ true = ground arith in rw (active, c, run, run') refl

add_deleted_run :
    (t : InductiveTrace) (level : ℕ) (l : LemmaData) (fs' : Frames)
    → l.deleted ≡ true
    → add_lemma_to_frame l.id level t.frames ≡ ok fs'
    → add_known l level t ≡ ok (l.id, store (record l { level = level; deleted = false }) fs' t)
unfolding add_known
add_deleted_run t level l fs' gone run' = rw (gone, run') refl

module _ (t : InductiveTrace) (wf : IsWellFormed t) (id level : ℕ) (l : LemmaData)
    (e : get_elem? t.lemmas id ≡ some l) where
  -- A deleted lemma is in no frame.
  deleted-moved :
      l.deleted ≡ true
      → (k : ℕ) (j : LemmaId)
      → contains j (frame_at t.frames k)
        ≡ (if id == j then false else contains j (frame_at t.frames k))
  deleted-moved gone k j = elim (Bool-cases (id == j)) [
    | inl q ↦ rw q (
        subst (λ i. contains i (frame_at t.frames k) ≡ false) ((==_iff id j).0 q)
          (at_level t wf id level l e k ∙ rw gone refl))
    | inr q ↦ rw q refl
  ]

  moved-IsStored :
      (fs : Frames)
      → ((k : ℕ) (j : LemmaId)
          → contains j (frame_at fs k) ≡ (
              if id == j
              then stands (some (record l { level = level; deleted = false })) k
              else contains j (frame_at t.frames k)))
      → IsStored t l.cube level (l.id, store (record l { level = level; deleted = false }) fs t)
  moved-IsStored fs moved =
      let same = wf.ids id l e in
      let l' : LemmaData = record l { level = level; deleted = false } in
      let entry : find_cube l.cube t.cube_to_lemma_id ≡ some l.id =
        wf.indexed id l e ∙ ap some (sym same) in
      record {
        well_formed = store-IsWellFormed t wf id l l' fs e same refl moved;
        stored = stored_hit t wf id l l' fs e same refl moved l.id ((==_iff id l.id).1 (sym same));
        indexed = ap (λ m. find_cube l.cube m) (store-map l' fs t) ∙ entry;
        others = λ j d.
            stored_miss t wf id l l' fs e same refl moved j (subst (λ i. (i == j) ≡ false) same d);
        known = λ x f. (cc (f, entry), length-store l' fs t);
        fresh = λ f. absurd (cc (f, entry));
      }

  pub add_known-IsStored :
      (l.deleted ≡ false → l.level ≤ level)
      → Returns (add_known l level t) (λ r. IsStored t l.cube level r)
  add_known-IsStored le =
      let same = wf.ids id l e in
      let l' : LemmaData = record l { level = level; deleted = false } in
      elim (Bool-cases l.deleted) [
        | inl gone ↦
            let (fs', run', ins) = add_lemma_to_frame-Inserted id level t.frames in
            let moved =
              at_new_level t id fs' level l' refl refl
                (Inserted-moved t wf id level l e t.frames fs' (deleted-moved gone) ins) in
            (
              (l.id, store l' fs' t),
              add_deleted_run t level l fs' gone
                  (subst (λ i. add_lemma_to_frame i level t.frames ≡ ok fs') (sym same) run'),
              moved-IsStored fs' moved,
            )
        | inr active ↦
            let (fs, run, erased) =
              remove_lemma_from_frame-Erased id l.level t.frames
                (active_there t wf id level l e active) in
            let (fs', run', ins) = add_lemma_to_frame-Inserted id level fs in
            let moved = at_new_level t id fs' level l' refl refl (
              Inserted-moved t wf id level l e fs fs'
                (Erased-moved t wf id level l e fs active erased) ins) in
            (
              (l.id, store l' fs' t),
              add_active_run t level l fs fs' active (le active)
                  (subst (λ i. remove_lemma_from_frame i l.level t.frames ≡ ok fs) (sym same) run)
                  (subst (λ i. add_lemma_to_frame i level fs ≡ ok fs') (sym same) run'),
              moved-IsStored fs' moved,
            )
      ]
