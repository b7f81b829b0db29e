-- ===== src/Trace/Invariant.antt =====
-- The invariant of `InductiveTrace` of src/pme/ic3/inductive_trace.cpp: each lemma stands in the
-- frame of its level and in no other, and a deleted one in none; the map leads from each cube to its lemma and
-- from each lemma's cube back to it, so no two lemmas have a cube. Every operation keeps it.
use pme.Base.{
  ℕ, zero, suc, ◌<◌, ◌≡◌, refl, ap, sym, ◌∙◌, subst, Bool, true, false, if◌then◌else◌, ◌==◌, ==_iff,
  List, [], ◌∷◌, length, get_elem?, Option, none, some, ok, Returns, Bool-cases, inl, inr, arith,
}
use pme.Literal.{Cube}
use pme.Trace.FrameStore.{
  LemmaId, Frames, contains, insert_id, erase_id, set_at, frame_at, add_lemma_to_frame,
  remove_lemma_from_frame,
}
use pme.Trace.{LemmaData, InductiveTrace, find_cube, get_lemma, store}
use pme.Trace.Update.{
  contains-insert_id, contains-erase_id, get_mutable_frame-Changed, get_elem?-set_at,
}

-- Whether the lemma stands in the frame of the level.
abbrev pub stands : Option LemmaData → ℕ → Bool
stands none level = false
stands (some l) level = if l.deleted then false else l.level == level

pub record IsWellFormed (t : InductiveTrace) : Type 0 where
  pub ids : (i : LemmaId) (l : LemmaData) → get_elem? t.lemmas i ≡ some l → l.id ≡ i
  pub placed :
      (k : ℕ) (id : LemmaId) → contains id (frame_at t.frames k) ≡ stands (get_elem? t.lemmas id) k
  pub known :
      (cube : Cube) (id : LemmaId)
      → find_cube cube t.cube_to_lemma_id ≡ some id
      → (l : LemmaData) × (get_elem? t.lemmas id ≡ some l) × (l.cube ≡ cube)
  pub indexed :
      (i : LemmaId) (l : LemmaData)
      → get_elem? t.lemmas i ≡ some l
      → find_cube l.cube t.cube_to_lemma_id ≡ some i

-- Frames that differ from others in one lemma: it now stands in one more level, or one less.
abbrev pub Inserted : LemmaId → ℕ → Frames → Frames → Type 0
Inserted id level fs fs' =
    (k : ℕ) (j : LemmaId)
    → contains j (frame_at fs' k) ≡ (
        if level == k
        then (if id == j then true else contains j (frame_at fs k))
        else contains j (frame_at fs k))

abbrev pub Erased : LemmaId → ℕ → Frames → Frames → Type 0
Erased id level fs fs' =
    (k : ℕ) (j : LemmaId)
    → contains j (frame_at fs' k) ≡ (
        if level == k
        then (if id == j then false else contains j (frame_at fs k))
        else contains j (frame_at fs k))

pub add_lemma_to_frame-Inserted :
    (id level : ℕ) (fs : Frames)
    → Returns (add_lemma_to_frame id level fs) (λ fs'. Inserted id level fs fs')
unfolding add_lemma_to_frame
add_lemma_to_frame-Inserted id level fs =
    let (fs', run, changed) = get_mutable_frame-Changed level (insert_id id) fs in
    (
      fs',
      run,
      λ k j. ap (λ f. contains j f) (changed k) ∙ elim (Bool-cases (level == k)) [
        | inl e ↦ rw e (contains-insert_id id j (frame_at fs k))
        | inr e ↦ rw e refl
      ],
    )

pub remove_lemma_from_frame-Erased :
    (id level : ℕ) (fs : Frames)
    → contains id (frame_at fs level) ≡ true
    → Returns (remove_lemma_from_frame id level fs) (λ fs'. Erased id level fs fs')
unfolding remove_lemma_from_frame
remove_lemma_from_frame-Erased id level fs h =
    let (fs', run, changed) = get_mutable_frame-Changed level (erase_id id) fs in
    (
      fs',
      rw (run, h) refl,
      λ k j. ap (λ f. contains j f) (changed k) ∙ elim (Bool-cases (level == k)) [
        | inl e ↦ rw e (contains-erase_id id j (frame_at fs k))
        | inr e ↦ rw e refl
      ],
    )

pub get_lemma-run :
    (t : InductiveTrace) (id : LemmaId) (l : LemmaData)
    → get_elem? t.lemmas id ≡ some l
    → get_lemma t id ≡ ok l
unfolding get_lemma
get_lemma-run t id l e = rw (get_lemma, e) refl

pub get_elem?-some :
    (xs : List LemmaData) (i : ℕ) (l : LemmaData) → get_elem? xs i ≡ some l → i < length xs
get_elem?-some [] i l e = cc e
get_elem?-some (x ∷ xs) zero l e = omega arith
get_elem?-some (x ∷ xs) (suc i) l e = omega (arith, get_elem?-some xs i l e)

some-injective : (a b : LemmaData) → some a ≡ some b → a ≡ b
some-injective a b e = cc e

-- Storing a lemma over its old self keeps the invariant where the frames agree with the new one.
module _ (t : InductiveTrace) (wf : IsWellFormed t) (id : LemmaId) (l l' : LemmaData) (fs : Frames)
    (e : get_elem? t.lemmas id ≡ some l) (same_id : l'.id ≡ id) (same_cube : l'.cube ≡ l.cube)
    (moved : (k : ℕ) (j : LemmaId)
      → contains j (frame_at fs k)
        ≡ (if id == j then stands (some l') k else contains j (frame_at t.frames k))) where
  stored_at :
      (j : LemmaId)
      → get_elem? (store l' fs t).lemmas j ≡ (if id == j then some l' else get_elem? t.lemmas j)
  unfolding store
  stored_at j =
      subst
        (λ i.
          get_elem? (set_at i l' t.lemmas) j ≡ (if id == j then some l' else get_elem? t.lemmas j))
        (sym same_id) (get_elem?-set_at id j l' t.lemmas (get_elem?-some t.lemmas id l e))

  stored_frames : (f : Frames → Bool) → f (store l' fs t).frames ≡ f fs
  unfolding store
  stored_frames f = refl

  pub stored_hit : (j : LemmaId) → (id == j) ≡ true → get_elem? (store l' fs t).lemmas j ≡ some l'
  stored_hit j q = stored_at j ∙ rw q refl

  pub stored_miss :
      (j : LemmaId) → (id == j) ≡ false → get_elem? (store l' fs t).lemmas j ≡ get_elem? t.lemmas j
  stored_miss j q = stored_at j ∙ rw q refl

  stored-ids :
      (j : LemmaId) (m : LemmaData) → get_elem? (store l' fs t).lemmas j ≡ some m → m.id ≡ j
  stored-ids j m h = elim (Bool-cases (id == j)) [
    | inl q ↦
        ap (λ (x : LemmaData). x.id) (some-injective m l' (sym h ∙ stored_hit j q))
        ∙ same_id
        ∙ (==_iff id j).0 q
    | inr q ↦ wf.ids j m (sym (stored_miss j q) ∙ h)
  ]

  stored-placed :
      (k : ℕ) (j : LemmaId)
      → contains j (frame_at (store l' fs t).frames k)
        ≡ stands (get_elem? (store l' fs t).lemmas j) k
  stored-placed k j = elim (Bool-cases (id == j)) [
    | inl q ↦
        let here : contains j (frame_at fs k) ≡ stands (some l') k = moved k j ∙ rw q refl in
        stored_frames (λ f. contains j (frame_at f k))
        ∙ here
        ∙ sym (ap (λ o. stands o k) (stored_hit j q))
    | inr q ↦
        let here : contains j (frame_at fs k) ≡ contains j (frame_at t.frames k) =
          moved k j ∙ rw q refl in
        stored_frames (λ f. contains j (frame_at f k))
        ∙ here
        ∙ wf.placed k j
        ∙ sym (ap (λ o. stands o k) (stored_miss j q))
  ]

  stored-known :
      (cube : Cube) (j : LemmaId)
      → find_cube cube t.cube_to_lemma_id ≡ some j
      → (x : LemmaData) × (get_elem? (store l' fs t).lemmas j ≡ some x) × (x.cube ≡ cube)
  stored-known cube j h =
      let (x, p, c) = wf.known cube j h in
      elim (Bool-cases (id == j)) [
        | inl q ↦
            let same : l ≡ x =
              some-injective l x (sym e ∙ ap (λ i. get_elem? t.lemmas i) ((==_iff id j).0 q) ∙ p) in
            (l', stored_hit j q, same_cube ∙ ap (λ (m : LemmaData). m.cube) same ∙ c)
        | inr q ↦ (x, stored_miss j q ∙ p, c)
      ]

  stored-indexed :
      (j : LemmaId) (m : LemmaData)
      → get_elem? (store l' fs t).lemmas j ≡ some m
      → find_cube m.cube t.cube_to_lemma_id ≡ some j
  stored-indexed j m h = elim (Bool-cases (id == j)) [
    | inl q ↦
        let same : l'.cube ≡ m.cube =
          ap (λ (x : LemmaData). x.cube) (some-injective l' m (sym (stored_hit j q) ∙ h)) in
        subst (λ c. find_cube c t.cube_to_lemma_id ≡ some j) (sym same_cube ∙ same)
          (subst (λ i. find_cube l.cube t.cube_to_lemma_id ≡ some i) ((==_iff id j).0 q)
            (wf.indexed id l e))
    | inr q ↦ wf.indexed j m (sym (stored_miss j q) ∙ h)
  ]

  pub store-IsWellFormed : IsWellFormed (store l' fs t)
  unfolding store
  store-IsWellFormed = record {
    ids = stored-ids;
    placed = stored-placed;
    known = stored-known;
    indexed = stored-indexed;
  }
