-- ===== src/Trace/FullFrame.antt =====
-- `getFullFrame` of src/pme/ic3/inductive_trace.cpp: the union of the frames from a level on.
use pme.Base.{
  ℕ, zero, suc, ◌+◌, ◌-◌, ◌<◌, ◌≤◌, ◌≡◌, refl, ap, sym, ◌∙◌, Bool, true, false, if◌then◌else◌, ltb,
  leb, ◌==◌, ◌&&◌, List, [], ◌∷◌, length, get_elem?, Option, none, some, ok, Returns, Bool-cases,
  ◌⊎◌, inl, inr, arith, Option-cases, ==_iff, ==_refl,
}
use pme.Trace.FrameStore.{
  LemmaId, Frame, Frames, level_inf, contains, insert_id, insert_all, get_frame, frame_exists,
  frame_at, num_frames,
}
use pme.Trace.{LemmaData, InductiveTrace, union_frames, get_full_frame}
use pme.Trace.Update.{contains-insert_id, get_elem?-inside}
use pme.Trace.Invariant.{stands, IsWellFormed}

-- Whether the lemma stands in a frame of the level or of a higher one.
abbrev pub stands_from : Option LemmaData → ℕ → Bool
stands_from none level = false
stands_from (some l) level = if l.deleted then false else leb level l.level

-- Whether `start`, or the test at one of `count` levels from `level` on, holds.
abbrev holds_in : (ℕ → Bool) → ℕ → ℕ → Bool → Bool
holds_in p zero level start = start
holds_in p (suc count) level start = holds_in p count (suc level) (if p level then true else start)

contains-insert_all :
    (id : LemmaId) (xs f : Frame)
    → contains id (insert_all xs f) ≡ (if contains id xs then true else contains id f)
unfolding insert_all contains
contains-insert_all id [] f = refl
contains-insert_all id (x ∷ xs) f =
    contains-insert_all id xs (insert_id x f)
    ∙ ap (λ b. if contains id xs then true else b) (contains-insert_id x id f)
    ∙ elim (Bool-cases (x == id)) [
      | inl h ↦ rw h (elim (Bool-cases (contains id xs)) [ inl q ↦ rw q refl | inr q ↦ rw q refl ])
      | inr h ↦ rw h refl
    ]

pub get_elem?-below :
    (fs : List Frame) (k : ℕ) (f : Frame) → get_elem? fs k ≡ some f → k < length fs
get_elem?-below [] k f e = cc e
get_elem?-below (x ∷ fs) zero f e = omega arith
get_elem?-below (x ∷ fs) (suc k) f e = omega (arith, get_elem?-below fs k f e)

pub get_frame-run :
    (k : ℕ) (fs : Frames)
    → k < length fs.frames
    → length fs.frames ≤ level_inf
    → get_frame k fs ≡ ok (frame_at fs k)
unfolding get_frame frame_exists frame_at
get_frame-run k fs lt le =
    let (f, e) = get_elem?-inside fs.frames k lt in
    let finite : (k == level_inf) ≡ false = ground arith in
    let here : ltb k (length fs.frames) ≡ true = ground arith in rw (finite, here, e) refl

union_frames-run :
    (count level : ℕ) (fs : Frames) (full : Frame)
    → count ≤ length fs.frames - level
    → length fs.frames ≤ level_inf
    → Returns (union_frames count level fs full) (λ f.
      (id : LemmaId)
      → contains id f ≡ holds_in (λ k. contains id (frame_at fs k)) count level (contains id full))
unfolding union_frames
union_frames-run zero level fs full fits le = (full, refl, λ id. refl)
union_frames-run (suc count) level fs full fits le =
    let here = get_frame-run level fs (omega arith) le in
    let (f, run, has) =
      union_frames-run count (suc level) fs (insert_all (frame_at fs level) full) (omega arith)
        le in
    (
      f,
      rw here run,
      λ id.
          has id
          ∙ ap (holds_in (λ k. contains id (frame_at fs k)) count (suc level))
              (contains-insert_all id (frame_at fs level) full),
    )

holds_in-cong :
    (p q : ℕ → Bool) (count level : ℕ) (start : Bool)
    → ((k : ℕ) → p k ≡ q k)
    → holds_in p count level start ≡ holds_in q count level start
holds_in-cong p q zero level start same = refl
holds_in-cong p q (suc count) level start same =
    holds_in-cong p q count (suc level) (if p level then true else start) same
    ∙ ap (λ b. holds_in q count (suc level) (if b then true else start)) (same level)

holds_in-none : (count level : ℕ) (start : Bool) → holds_in (λ k. false) count level start ≡ start
holds_in-none zero level start = refl
holds_in-none (suc count) level start = holds_in-none count (suc level) start

holds_in-level :
    (m count level : ℕ) (start : Bool)
    → holds_in (λ k. m == k) count level start
      ≡ (if leb level m && ltb m (level + count) then true else start)
holds_in-level m zero level start = ground arith
holds_in-level m (suc count) level start =
    holds_in-level m count (suc level) (if m == level then true else start) ∙ ground arith

-- A lemma stands in the frame of its level, which there is.
level_lem :
    (t : InductiveTrace) (id : LemmaId) (l : LemmaData)
    → IsWellFormed t
    → get_elem? t.lemmas id ≡ some l
    → l.deleted ≡ false
    → (l.level ≡ level_inf) ⊎ (l.level < length t.frames.frames)
unfolding frame_at contains
level_lem t id l wf e active =
    let here : contains id (frame_at t.frames l.level) ≡ true =
      wf.placed l.level id ∙ ap (λ o. stands o l.level) e ∙ rw (active, ==_refl l.level) refl in
    elim (Bool-cases (l.level == level_inf)) [
      | inl q ↦ inl ((==_iff l.level level_inf).0 q)
      | inr q ↦ elim (Option-cases (get_elem? t.frames.frames l.level)) [
        | inl gone ↦
            let empty : frame_at t.frames l.level ≡ [] = rw (q, gone) refl in
            let bad : true ≡ false = sym here ∙ ap (λ f. contains id f) empty in absurd (cc bad)
        | inr (f, found) ↦ inr (get_elem?-below t.frames.frames l.level f found)
      ]
    ]

full_frame_bits :
    (m level n : ℕ)
    → level ≤ level_inf
    → (m ≡ level_inf) ⊎ (m < n)
    → (if leb level m && ltb m (level + (n - level)) then true else m == level_inf) ≡ leb level m
full_frame_bits m level n le (inl e) = ground arith
full_frame_bits m level n le (inr lt) = ground arith

-- What the frames from a level on and the one at infinity hold, from where each lemma stands.
frames_from :
    (t : InductiveTrace) (level : ℕ) (id : LemmaId)
    → IsWellFormed t
    → level ≤ level_inf
    → holds_in
        (λ k. stands (get_elem? t.lemmas id) k)
        (length t.frames.frames - level)
        level
        (stands (get_elem? t.lemmas id) level_inf)
      ≡ stands_from (get_elem? t.lemmas id) level
frames_from t level id wf le =
    let n = length t.frames.frames in
    elim (Option-cases (get_elem? t.lemmas id)) [
      | inl e ↦ rw e (holds_in-none (n - level) level false)
      | inr (l, e) ↦ elim (Bool-cases l.deleted) [
        | inl d ↦ rw (e, d) (holds_in-none (n - level) level false)
        | inr d ↦
            rw (e, d)
              (holds_in-level l.level (n - level) level (l.level == level_inf)
                ∙ full_frame_bits l.level level n le (level_lem t id l wf e d))
      ]
    ]

-- In a well-formed trace with frames for levels below infinity only, getFullFrame returns for
-- every level: the frame has just the active lemmas of that level or a higher one.
pub get_full_frame-exact :
    (t : InductiveTrace) (level : ℕ)
    → IsWellFormed t
    → num_frames t.frames ≤ level_inf
    → level ≤ level_inf
    → Returns
        (get_full_frame t level)
        (λ full. (id : LemmaId) → contains id full ≡ stands_from (get_elem? t.lemmas id) level)
unfolding get_full_frame num_frames get_frame frame_at
get_full_frame-exact t level wf finite le =
    let n = length t.frames.frames in
    let (full, run, has) =
      union_frames-run (n - level) level t.frames t.frames.frame_inf (omega arith) finite in
    (
      full,
      run,
      λ id.
          has id
          ∙ ap (holds_in (λ k. contains id (frame_at t.frames k)) (n - level) level)
              (wf.placed level_inf id)
          ∙ holds_in-cong (λ k. contains id (frame_at t.frames k))
              (λ k. stands (get_elem? t.lemmas id) k) (n - level) level
              (stands (get_elem? t.lemmas id) level_inf) (λ k. wf.placed k id)
          ∙ frames_from t level id wf le,
    )
