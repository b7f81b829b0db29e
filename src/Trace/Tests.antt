-- ===== src/Trace/Tests.antt =====
-- Runs of `InductiveTrace` of src/pme/ic3/inductive_trace.cpp, and its theorems at a concrete trace.
use pme.Base.{
  ℕ, zero, suc, ◌≤◌, ◌≡◌, refl, sym, ap, ◌∙◌, subst, true, false, [], ◌∷◌, get_elem?, some, Result,
  ok, fault, assertion_failed, Returns, arith,
}
use pme.Trace.FrameStore.{
  LemmaId, contains, insert_id, erase_id, insert_all, padding, resize, set_at, frame_exists,
  create_frame, write_frame, get_mutable_frame, get_frame, num_frames, add_lemma_to_frame, frame_at,
  remove_lemma_from_frame, shrink, empty_frames,
}
use pme.Base.Sorting.{insert_sorted, sorted_list}
use pme.Trace.{
  LemmaData, InductiveTrace, sort_cube, cube_eq, find_cube, lemma_exists, id_of, get_lemma,
  lemma_is_active, level_of, level_of_cube, cube_of, store, add_known, add_new, add_lemma,
  remove_lemma, push_lemma, union_frames, get_full_frame, last_used, clear_unused_frames, clear,
}
use pme.Trace.Invariant.{IsWellFormed}
use pme.Trace.Preserved.{push_lemma-IsWellFormed, remove_lemma-IsWellFormed}
use pme.Trace.Added.{added_lemma, IsStored}
use pme.Trace.AddLemma.{add_lemma-IsWellFormed}
use pme.Trace.FullFrame.{stands_from, get_full_frame-exact}
use pme.Trace.Trimmed.{IsTrimmed, clear_unused_frames-IsWellFormed}

trace_program : Unit {0}
unfolding sorted_list contains insert_id erase_id insert_all padding resize set_at frame_exists
    create_frame write_frame get_mutable_frame get_frame num_frames add_lemma_to_frame frame_at
    remove_lemma_from_frame shrink empty_frames insert_sorted sort_cube cube_eq find_cube
    lemma_exists id_of get_lemma lemma_is_active level_of level_of_cube cube_of store add_known
    add_new add_lemma remove_lemma push_lemma union_frames get_full_frame last_used
    clear_unused_frames clear
trace_program = tt

abbrev empty_trace : InductiveTrace
empty_trace = record {
  frames = record { frames = []; frame_inf = [] };
  lemmas = [];
  cube_to_lemma_id = [];
}

-- The trace after its first lemma, at level 1.
abbrev one_lemma : InductiveTrace
one_lemma = record {
  frames = record { frames = [] ∷ (0 ∷ []) ∷ []; frame_inf = [] };
  lemmas = added_lemma 0 (4 ∷ 6 ∷ []) 1 ∷ [];
  cube_to_lemma_id = (4 ∷ 6 ∷ [], 0) ∷ [];
}

abbrev result_of : Result (LemmaId × InductiveTrace) → LemmaId × InductiveTrace
result_of (ok r) = r
result_of (fault e) = (0, empty_trace)

add_first : add_lemma (6 ∷ 4 ∷ []) 1 empty_trace ≡ ok (0, one_lemma)
unfolding trace_program
add_first = refl

-- The cube is known, but not in the order it was given in.
unsorted_is_unknown : lemma_exists one_lemma (6 ∷ 4 ∷ []) ≡ false
unfolding trace_program
unsorted_is_unknown = refl

sorted_is_known : lemma_exists one_lemma (4 ∷ 6 ∷ []) ≡ true
unfolding trace_program
sorted_is_known = refl

full_frame : get_full_frame one_lemma 0 ≡ ok (0 ∷ [])
unfolding trace_program
full_frame = refl

remove_twice :
    (remove_lemma 0 (record one_lemma { frames = empty_trace.frames })) ≡ fault assertion_failed
unfolding trace_program
remove_twice = refl

cleared_end :
    clear_unused_frames (record one_lemma {
      frames = record { frames = [] ∷ (0 ∷ []) ∷ [] ∷ [] ∷ []; frame_inf = [] };
    })
    ≡ ok one_lemma
unfolding trace_program
cleared_end = refl

empty_trace-IsWellFormed : IsWellFormed empty_trace
unfolding trace_program
empty_trace-IsWellFormed = record {
  ids = λ i l h. cc h;
  placed = λ k id. ground arith;
  known = λ cube id h. absurd (cc h);
  indexed = λ i l h. absurd (cc h);
}

one_lemma-IsWellFormed : IsWellFormed one_lemma
one_lemma-IsWellFormed =
    let (r, run, post) =
      add_lemma-IsWellFormed empty_trace (6 ∷ 4 ∷ []) 1 empty_trace-IsWellFormed (omega arith)
        (λ id l h c active. absurd (cc h)) in
    let e : r ≡ (0, one_lemma) = sym (ap result_of run) ∙ ap result_of add_first in
    subst (λ (p : LemmaId × InductiveTrace). IsWellFormed p.1) e post.0.well_formed

-- The same cube in another order has its lemma already.
add_again :
    add_lemma (6 ∷ 4 ∷ []) 2 one_lemma
    ≡ ok (
      0,
      record one_lemma {
        frames = record { frames = [] ∷ [] ∷ (0 ∷ []) ∷ []; frame_inf = [] };
        lemmas = added_lemma 0 (4 ∷ 6 ∷ []) 2 ∷ [];
      },
    )
unfolding trace_program
add_again = refl

one_lemma-level :
    (id : LemmaId) (l : LemmaData) → get_elem? one_lemma.lemmas id ≡ some l → l.level ≤ 2
one_lemma-level zero l h =
    let e : added_lemma 0 (4 ∷ 6 ∷ []) 1 ≡ l = cc h in
    subst (λ (x : LemmaData). x.level ≤ 2) e (omega arith)
one_lemma-level (suc id) l h = absurd (cc h)

add_lemma-IsWellFormed_example :
    Returns
      (add_lemma (6 ∷ 4 ∷ []) 2 one_lemma)
      (λ r. IsStored one_lemma (sort_cube (6 ∷ 4 ∷ [])) 2 r × (id_of r.1 (6 ∷ 4 ∷ []) ≡ ok r.0))
add_lemma-IsWellFormed_example =
    add_lemma-IsWellFormed one_lemma (6 ∷ 4 ∷ []) 2 one_lemma-IsWellFormed (omega arith)
      (λ id l h c active. one_lemma-level id l h)

push_lemma-IsWellFormed_example :
    Returns
      (push_lemma 0 3 one_lemma)
      (λ t'. IsWellFormed t' × (get_elem? t'.lemmas 0 ≡ some (added_lemma 0 (4 ∷ 6 ∷ []) 3)))
push_lemma-IsWellFormed_example =
    push_lemma-IsWellFormed one_lemma 0 3 (added_lemma 0 (4 ∷ 6 ∷ []) 1) one_lemma-IsWellFormed refl
      refl (omega arith)

remove_lemma-IsWellFormed_example : Returns (remove_lemma 0 one_lemma) (λ t'.
    IsWellFormed t'
    × (get_elem? t'.lemmas 0 ≡ some (record (added_lemma 0 (4 ∷ 6 ∷ []) 1) { deleted = true }))
    × ((k : ℕ) → contains 0 (frame_at t'.frames k) ≡ false))
remove_lemma-IsWellFormed_example =
    remove_lemma-IsWellFormed one_lemma 0 (added_lemma 0 (4 ∷ 6 ∷ []) 1) one_lemma-IsWellFormed refl
      refl

-- After a second lemma at level 3.
abbrev two_lemmas : InductiveTrace
two_lemmas = record {
  frames = record { frames = [] ∷ (0 ∷ []) ∷ [] ∷ (1 ∷ []) ∷ []; frame_inf = [] };
  lemmas = added_lemma 0 (4 ∷ 6 ∷ []) 1 ∷ added_lemma 1 (8 ∷ []) 3 ∷ [];
  cube_to_lemma_id = (8 ∷ [], 1) ∷ (4 ∷ 6 ∷ [], 0) ∷ [];
}

add_second : add_lemma (8 ∷ []) 3 one_lemma ≡ ok (1, two_lemmas)
unfolding trace_program
add_second = refl

two_lemmas-IsWellFormed : IsWellFormed two_lemmas
two_lemmas-IsWellFormed =
    let (r, run, post) =
      add_lemma-IsWellFormed one_lemma (8 ∷ []) 3 one_lemma-IsWellFormed (omega arith)
        (λ id l h c active. omega (arith, one_lemma-level id l h)) in
    let e : r ≡ (1, two_lemmas) = sym (ap result_of run) ∙ ap result_of add_second in
    subst (λ (p : LemmaId × InductiveTrace). IsWellFormed p.1) e post.0.well_formed

-- After the second lemma is removed, two frames at the end are empty.
abbrev second_removed : InductiveTrace
second_removed = record two_lemmas {
  frames = record { frames = [] ∷ (0 ∷ []) ∷ [] ∷ [] ∷ []; frame_inf = [] };
  lemmas = added_lemma 0 (4 ∷ 6 ∷ []) 1 ∷ record (added_lemma 1 (8 ∷ []) 3) { deleted = true } ∷ [];
}

abbrev trace_of : Result InductiveTrace → InductiveTrace
trace_of (ok t) = t
trace_of (fault e) = empty_trace

remove_second : remove_lemma 1 two_lemmas ≡ ok second_removed
unfolding trace_program
remove_second = refl

second_removed-IsWellFormed : IsWellFormed second_removed
second_removed-IsWellFormed =
    let (t', run, post) =
      remove_lemma-IsWellFormed two_lemmas 1 (added_lemma 1 (8 ∷ []) 3) two_lemmas-IsWellFormed refl
        refl in
    let e : t' ≡ second_removed = sym (ap trace_of run) ∙ ap trace_of remove_second in
    subst (λ t. IsWellFormed t) e post.0

second_removed_size : num_frames second_removed.frames ≡ 4
unfolding trace_program
second_removed_size = refl

two_lemmas_size : num_frames two_lemmas.frames ≡ 4
unfolding trace_program
two_lemmas_size = refl

get_full_frame-exact_example :
    Returns
      (get_full_frame two_lemmas 2)
      (λ full. (id : LemmaId) → contains id full ≡ stands_from (get_elem? two_lemmas.lemmas id) 2)
get_full_frame-exact_example =
    get_full_frame-exact two_lemmas 2 two_lemmas-IsWellFormed (omega (arith, two_lemmas_size))
      (omega arith)

clear_unused_frames-IsWellFormed_example : Returns (clear_unused_frames second_removed) (λ t'.
    IsWellFormed t'
    × (t'.lemmas ≡ second_removed.lemmas)
    × (t'.cube_to_lemma_id ≡ second_removed.cube_to_lemma_id)
    × ((k : ℕ) → frame_at t'.frames k ≡ frame_at second_removed.frames k)
    × IsTrimmed t'.frames)
clear_unused_frames-IsWellFormed_example =
    clear_unused_frames-IsWellFormed second_removed second_removed-IsWellFormed
      (omega (arith, second_removed_size)) (omega (arith, second_removed_size))
