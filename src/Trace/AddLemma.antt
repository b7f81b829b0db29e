-- ===== src/Trace/AddLemma.antt =====
-- `addLemma` of src/pme/ic3/inductive_trace.cpp as a whole.
use pme.Base.{
  ℕ, ◌^◌, ◌<◌, ◌≤◌, ◌≡◌, refl, ◌∙◌, subst, true, false, length, get_elem?, none, some, ok, Returns,
  Option-cases, inl, inr,
}
use pme.Literal.{Cube}
use pme.Trace.FrameStore.{LemmaId}
use pme.Trace.{
  LemmaData, InductiveTrace, find_cube, add_known, add_new, id_of, lemma_exists, add_lemma,
  sort_cube,
}
use pme.Trace.Sorting.{sort_cube_idem}
use pme.Trace.Invariant.{IsWellFormed, get_lemma-run}
use pme.Trace.Added.{IsStored, add_known-IsStored}
use pme.Trace.Grown.{add_new-IsStored}

lemma_exists-found :
    (t : InductiveTrace) (cube : Cube) (id : LemmaId)
    → find_cube cube t.cube_to_lemma_id ≡ some id
    → lemma_exists t cube ≡ true
unfolding lemma_exists
lemma_exists-found t cube id f = rw (lemma_exists, f) refl

lemma_exists-absent :
    (t : InductiveTrace) (cube : Cube)
    → find_cube cube t.cube_to_lemma_id ≡ none
    → lemma_exists t cube ≡ false
unfolding lemma_exists
lemma_exists-absent t cube f = rw (lemma_exists, f) refl

id_of-found :
    (t : InductiveTrace) (cube : Cube) (id : LemmaId)
    → find_cube (sort_cube cube) t.cube_to_lemma_id ≡ some id
    → id_of t (sort_cube cube) ≡ ok id
unfolding id_of
id_of-found t cube id f = rw (id_of, sort_cube_idem cube, f) refl

add_lemma_known_run :
    (t : InductiveTrace) (cube : Cube) (level : ℕ) (id : LemmaId) (l : LemmaData)
    → find_cube (sort_cube cube) t.cube_to_lemma_id ≡ some id
    → get_elem? t.lemmas id ≡ some l
    → add_lemma cube level t ≡ add_known l level t
unfolding add_lemma
add_lemma_known_run t cube level id l f e =
    rw (lemma_exists-found t (sort_cube cube) id f, id_of-found t cube id f, get_lemma-run t id l e)
      refl

add_lemma_new_run :
    (t : InductiveTrace) (cube : Cube) (level : ℕ)
    → find_cube (sort_cube cube) t.cube_to_lemma_id ≡ none
    → add_lemma cube level t ≡ add_new (sort_cube cube) level t
unfolding add_lemma
add_lemma_new_run t cube level f = rw (lemma_exists-absent t (sort_cube cube) f) refl

id_of-indexed :
    (t : InductiveTrace) (cube : Cube) (id : LemmaId)
    → find_cube (sort_cube cube) t.cube_to_lemma_id ≡ some id
    → id_of t cube ≡ ok id
unfolding id_of
id_of-indexed t cube id f = rw (id_of, f) refl

-- In a well-formed trace of fewer than 2^32 lemmas, adding a lemma succeeds where an active lemma of the same
-- cube, if there is one, has no higher level. The lemma then stands, not deleted and with its cube sorted, at
-- the level, and its number is found for the cube. A cube that was known keeps its number and adds no
-- lemma, a new one takes the next number; all other lemmas stay, and the trace is still well-formed.
pub add_lemma-IsWellFormed :
    (t : InductiveTrace) (cube : Cube) (level : ℕ)
    → IsWellFormed t
    → length t.lemmas < 2 ^ 32
    → ((id : LemmaId) (l : LemmaData)
        → get_elem? t.lemmas id ≡ some l
        → l.cube ≡ sort_cube cube
        → l.deleted ≡ false
        → l.level ≤ level)
    → Returns
        (add_lemma cube level t)
        (λ r. IsStored t (sort_cube cube) level r × (id_of r.1 cube ≡ ok r.0))
add_lemma-IsWellFormed t cube level wf few le =
    elim (Option-cases (find_cube (sort_cube cube) t.cube_to_lemma_id)) [
      | inl f ↦
          let (r, run, post) = add_new-IsStored t wf (sort_cube cube) level few f in
          (
            r,
            add_lemma_new_run t cube level f ∙ run,
            (post, id_of-indexed r.1 cube r.0 post.indexed),
          )
      | inr (id, f) ↦
          let (l, e, c) = wf.known (sort_cube cube) id f in
          let (r, run, post) = add_known-IsStored t wf id level l e (le id l e c) in
          let post' = subst (λ d. IsStored t d level r) c post in
          (
            r,
            add_lemma_known_run t cube level id l f e ∙ run,
            (post', id_of-indexed r.1 cube r.0 post'.indexed),
          )
    ]
