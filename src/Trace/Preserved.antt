-- ===== src/Trace/Preserved.antt =====
-- Each operation of `InductiveTrace` of src/pme/ic3/inductive_trace.cpp keeps the invariant.
use pme.Base.{
  ℕ, ◌≤◌, ◌≡◌, refl, ap, sym, ◌∙◌, subst, true, false, if◌then◌else◌, leb, ◌==◌, ==_refl, ==_iff,
  get_elem?, some, ok, Returns, Bool-cases, inl, inr, arith,
}
use pme.Trace.FrameStore.{
  LemmaId, Frames, contains, frame_at, add_lemma_to_frame, remove_lemma_from_frame,
}
use pme.Trace.{LemmaData, InductiveTrace, store, remove_lemma, push_lemma}
use pme.Trace.Invariant.{
  stands, IsWellFormed, Inserted, Erased, add_lemma_to_frame-Inserted,
  remove_lemma_from_frame-Erased, get_lemma-run, store-IsWellFormed, stored_hit,
}

-- Taking a lemma out of its frame and into one of another level, or only one of these.
module _ (t : InductiveTrace) (wf : IsWellFormed t) (id level : ℕ) (l : LemmaData)
    (e : get_elem? t.lemmas id ≡ some l) where
  pub at_level : (k : ℕ) → contains id (frame_at t.frames k) ≡ stands (some l) k
  at_level k = wf.placed k id ∙ ap (λ o. stands o k) e

  pub active_there : l.deleted ≡ false → contains id (frame_at t.frames l.level) ≡ true
  active_there h = at_level l.level ∙ rw (h, ==_refl l.level) refl

  pub Erased-moved :
      (fs : Frames)
      → l.deleted ≡ false
      → Erased id l.level t.frames fs
      → (k : ℕ) (j : LemmaId)
      → contains j (frame_at fs k) ≡ (if id == j then false else contains j (frame_at t.frames k))
  Erased-moved fs h erased k j = elim (Bool-cases (id == j)) [
    | inl q ↦
        let was : contains j (frame_at t.frames k) ≡ (l.level == k) =
          subst (λ i. contains i (frame_at t.frames k) ≡ (l.level == k)) ((==_iff id j).0 q)
            (at_level k ∙ rw h refl) in
        erased k j
        ∙ elim (Bool-cases (l.level == k)) [ inl c ↦ rw (c, q) refl | inr c ↦ rw (c, q) (was ∙ c) ]
    | inr q ↦
        erased k j
        ∙ rw q (elim (Bool-cases (l.level == k)) [ inl c ↦ rw c refl | inr c ↦ rw c refl ])
  ]

  pub Inserted-moved :
      (fs fs' : Frames)
      → ((k : ℕ) (j : LemmaId)
          → contains j (frame_at fs k)
            ≡ (if id == j then false else contains j (frame_at t.frames k)))
      → Inserted id level fs fs'
      → (k : ℕ) (j : LemmaId)
      → contains j (frame_at fs' k)
        ≡ (if id == j then level == k else contains j (frame_at t.frames k))
  Inserted-moved fs fs' out ins k j = elim (Bool-cases (id == j)) [
    | inl q ↦
        let gone : contains j (frame_at fs k) ≡ false = out k j ∙ rw q refl in
        ins k j ∙ elim (Bool-cases (level == k)) [ inl c ↦ rw (c, q) refl | inr c ↦ rw (c, q) gone ]
    | inr q ↦
        let kept : contains j (frame_at fs k) ≡ contains j (frame_at t.frames k) =
          out k j ∙ rw q refl in
        ins k j ∙ elim (Bool-cases (level == k)) [ inl c ↦ rw (c, q) kept | inr c ↦ rw (c, q) kept ]
  ]

-- What the frames hold of a lemma, from where it stands after the change.
module _ (t : InductiveTrace) (id : ℕ) (fs : Frames) where
  pub at_new_level :
      (level : ℕ) (l : LemmaData)
      → l.deleted ≡ false
      → l.level ≡ level
      → ((k : ℕ) (j : LemmaId)
          → contains j (frame_at fs k)
            ≡ (if id == j then level == k else contains j (frame_at t.frames k)))
      → (k : ℕ) (j : LemmaId)
      → contains j (frame_at fs k)
        ≡ (if id == j then stands (some l) k else contains j (frame_at t.frames k))
  at_new_level level l h same moved k j =
      let e : (level == k) ≡ stands (some l) k = rw (sym same, h) refl in
      subst
        (λ b.
          contains j (frame_at fs k) ≡ (if id == j then b else contains j (frame_at t.frames k)))
        e (moved k j)

  at_no_level :
      (l : LemmaData)
      → l.deleted ≡ true
      → ((k : ℕ) (j : LemmaId)
          → contains j (frame_at fs k)
            ≡ (if id == j then false else contains j (frame_at t.frames k)))
      → (k : ℕ) (j : LemmaId)
      → contains j (frame_at fs k)
        ≡ (if id == j then stands (some l) k else contains j (frame_at t.frames k))
  at_no_level l h moved k j =
      let e : false ≡ stands (some l) k = rw h refl in
      subst
        (λ b.
          contains j (frame_at fs k) ≡ (if id == j then b else contains j (frame_at t.frames k)))
        e (moved k j)

push_run :
    (t : InductiveTrace) (id level : ℕ) (l : LemmaData) (fs fs' : Frames)
    → get_elem? t.lemmas id ≡ some l
    → l.id ≡ id
    → l.level ≤ level
    → remove_lemma_from_frame id l.level t.frames ≡ ok fs
    → add_lemma_to_frame id level fs ≡ ok fs'
    → push_lemma id level t ≡ ok (store (record l { level = level }) fs' t)
unfolding push_lemma
push_run t id level l fs fs' e same le run run' =
    let c : leb l.level level ≡ true = ground arith in
    rw (get_lemma-run t id l e, c, same, run, run') refl

-- In a well-formed trace, pushing an active lemma to a level not below its own succeeds. It then
-- stands at that level, and the trace is still well-formed.
pub push_lemma-IsWellFormed :
    (t : InductiveTrace) (id level : ℕ) (l : LemmaData)
    → IsWellFormed t
    → get_elem? t.lemmas id ≡ some l
    → l.deleted ≡ false
    → l.level ≤ level
    → Returns
        (push_lemma id level t)
        (λ t'. IsWellFormed t' × (get_elem? t'.lemmas id ≡ some (record l { level = level })))
push_lemma-IsWellFormed t id level l wf e active le =
    let same = wf.ids id l e in
    let (fs, run, erased) =
      remove_lemma_from_frame-Erased id l.level t.frames (active_there t wf id level l e active) in
    let (fs', run', ins) = add_lemma_to_frame-Inserted id level fs in
    let l' : LemmaData = record l { level = level } in
    let moved = at_new_level t id fs' level l' active refl (
      Inserted-moved t wf id level l e fs fs' (Erased-moved t wf id level l e fs active erased)
        ins) in
    (
      store l' fs' t,
      push_run t id level l fs fs' e same le run run',
      (
        store-IsWellFormed t wf id l l' fs' e same refl moved,
        stored_hit t wf id l l' fs' e same refl moved id (==_refl id),
      ),
    )

remove_run :
    (t : InductiveTrace) (id : ℕ) (l : LemmaData) (fs : Frames)
    → get_elem? t.lemmas id ≡ some l
    → l.id ≡ id
    → remove_lemma_from_frame id l.level t.frames ≡ ok fs
    → remove_lemma id t ≡ ok (store (record l { deleted = true }) fs t)
unfolding remove_lemma
remove_run t id l fs e same run = rw (get_lemma-run t id l e, same, run) refl

-- In a well-formed trace, removing an active lemma succeeds. It is then marked as deleted and
-- stands in no frame, and the trace is still well-formed.
pub remove_lemma-IsWellFormed :
    (t : InductiveTrace) (id : ℕ) (l : LemmaData)
    → IsWellFormed t
    → get_elem? t.lemmas id ≡ some l
    → l.deleted ≡ false
    → Returns (remove_lemma id t) (λ t'.
      IsWellFormed t'
      × (get_elem? t'.lemmas id ≡ some (record l { deleted = true }))
      × ((k : ℕ) → contains id (frame_at t'.frames k) ≡ false))
remove_lemma-IsWellFormed t id l wf e active =
    let same = wf.ids id l e in
    let (fs, run, erased) =
      remove_lemma_from_frame-Erased id l.level t.frames (active_there t wf id 0 l e active) in
    let l' : LemmaData = record l { deleted = true } in
    let moved = at_no_level t id fs l' refl (Erased-moved t wf id 0 l e fs active erased) in
    let hit = stored_hit t wf id l l' fs e same refl moved id (==_refl id) in
    let wf' = store-IsWellFormed t wf id l l' fs e same refl moved in
    (
      store l' fs t,
      remove_run t id l fs e same run,
      (wf', hit, λ k. wf'.placed k id ∙ ap (λ o. stands o k) hit),
    )
