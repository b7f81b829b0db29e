-- ===== src/Trace/Trimmed.antt =====
-- `clearUnusedFrames` of src/pme/ic3/inductive_trace.cpp: the empty frames at the end are dropped.
use pme.Base.{
  ℕ, zero, suc, ◌-◌, ◌<◌, ◌≤◌, ◌≡◌, ◌≢◌, refl, ap, sym, ◌∙◌, subst, true, false, if◌then◌else◌, ltb,
  leb, ◌==◌, List, [], ◌∷◌, ◌++◌, length, length-take, min, take, get_elem?, none, ok, Returns,
  Option-cases, Bool-cases, inl, inr, ◌⊎◌, arith,
}
use pme.Trace.FrameStore.{
  LemmaId, Frame, Frames, level_inf, contains, padding, resize, shrink, frame_at, num_frames,
}
use pme.Trace.{InductiveTrace, last_used, clear_unused_frames}
use pme.Trace.Invariant.{IsWellFormed}
use pme.Trace.FullFrame.{get_frame-run, get_elem?-below}

-- The frame at the end is not empty, but for the first.
abbrev pub IsTrimmed : Frames → Type 0
IsTrimmed fs = (num_frames fs ≡ 1) ⊎ ((m : ℕ) × (num_frames fs ≡ suc m) × (frame_at fs m ≢ []))

-- What the loop finds, up to the frame `i`: from `kept` on the frames are empty.
record IsLastUsed (fs : Frames) (i kept : ℕ) : Type 0 where
  lower : 1 ≤ kept
  upper : kept ≤ suc i
  unused : (j : ℕ) → kept ≤ j → j ≤ i → frame_at fs j ≡ []
  used : (kept ≡ 1) ⊎ ((m : ℕ) × (kept ≡ suc m) × (frame_at fs m ≢ []))

List-cases : (f : Frame) → (f ≡ []) ⊎ ((x : LemmaId) × (xs : Frame) × (f ≡ x ∷ xs))
List-cases [] = inl refl
List-cases (x ∷ xs) = inr (x, xs, refl)

≤_split : (j i : ℕ) → j ≤ suc i → (j ≤ i) ⊎ (j ≡ suc i)
≤_split j i le = elim (Bool-cases (leb j i)) [
  | inl c ↦ inl (ground arith)
  | inr c ↦ inr (ground arith)
]

last_used-run :
    (i : ℕ) (fs : Frames)
    → i < length fs.frames
    → length fs.frames ≤ level_inf
    → Returns (last_used i (suc i) fs) (λ kept. IsLastUsed fs i kept)
unfolding last_used
last_used-run zero fs lt le = (
  1,
  refl,
  record {
    lower = omega arith;
    upper = omega arith;
    unused = λ j l u. absurd (omega arith);
    used = inl refl;
  },
)
last_used-run (suc i) fs lt le =
    let run = get_frame-run (suc i) fs lt le in
    elim (List-cases (frame_at fs (suc i))) [
      | inl e ↦
          let (kept, rest, last) = last_used-run i fs (omega arith) le in
          (
            kept,
            rw (run, e) rest,
            record {
              lower = last.lower;
              upper = omega (arith, last.upper);
              unused = λ j l u. elim (≤_split j i u) [
                | inl below ↦ last.unused j l below
                | inr here ↦ subst (λ m. frame_at fs m ≡ []) (sym here) e
              ];
              used = last.used;
            },
          )
      | inr (x, xs, e) ↦ (
        suc (suc i),
        rw (run, e) refl,
        record {
          lower = omega arith;
          upper = omega arith;
          unused = λ j l u. absurd (omega arith);
          used = inr (suc i, refl, λ h. absurd (cc (sym e ∙ h)));
        },
      )
    ]

get_elem?-take :
    {A : Type 0} (n : ℕ) (xs : List A) (j : ℕ)
    → get_elem? (take n xs) j ≡ (if ltb j n then get_elem? xs j else none)
get_elem?-take zero xs j = ground arith
get_elem?-take (suc n) [] j = ground arith
get_elem?-take (suc n) (x ∷ xs) zero = ground arith
get_elem?-take (suc n) (x ∷ xs) (suc j) = ground (arith, get_elem?-take n xs j)

append-nil : (fs : List Frame) → fs ++ [] ≡ fs
append-nil [] = refl
append-nil (f ∷ fs) = ap (λ gs. f ∷ gs) (append-nil fs)

-- To fewer frames, none is added.
resize-take : (n : ℕ) (fs : List Frame) → n ≤ length fs → resize n fs ≡ take n fs
unfolding resize padding
resize-take n fs le =
    let none_missing : n - length fs ≡ 0 = omega arith in
    ap (λ m. take n fs ++ padding m) none_missing ∙ append-nil (take n fs)

frame_at-shrunk :
    (fs : Frames) (n k : ℕ)
    → n ≤ length fs.frames
    → ((j : ℕ) → n ≤ j → j < length fs.frames → frame_at fs j ≡ [])
    → frame_at (record fs { frames = resize n fs.frames }) k ≡ frame_at fs k
unfolding frame_at
frame_at-shrunk fs n k le unused =
    let cut : get_elem? (resize n fs.frames) k ≡ (if ltb k n then get_elem? fs.frames k else none) =
      ap (λ gs. get_elem? gs k) (resize-take n fs.frames le) ∙ get_elem?-take n fs.frames k in
    elim (Bool-cases (k == level_inf)) [
      | inl q ↦ rw q refl
      | inr q ↦ elim (Bool-cases (ltb k n)) [
        | inl c ↦ rw (q, cut, c) refl
        | inr c ↦ elim (Option-cases (get_elem? fs.frames k)) [
          | inl e ↦ rw (q, cut, c, e) refl
          | inr (f, e) ↦
              let empty = unused k (ground arith) (get_elem?-below fs.frames k f e) in
              let cut_off : frame_at (record fs { frames = resize n fs.frames }) k ≡ [] =
                rw (q, cut, c) refl in
              cut_off ∙ sym empty
        ]
      ]
    ]

length-resize : (n : ℕ) (fs : List Frame) → n ≤ length fs → length (resize n fs) ≡ n
length-resize n fs le =
    let cut : length (resize n fs) ≡ min n (length fs) =
      ap (λ gs. length gs) (resize-take n fs le) ∙ length-take n fs in
    omega (arith, cut)

abbrev cleared : InductiveTrace → ℕ → InductiveTrace
cleared t kept = record t { frames = record t.frames { frames = resize kept t.frames.frames } }

-- The loop over all frames, and the frames that it leaves.
kept_lem :
    (t : InductiveTrace)
    → 1 ≤ num_frames t.frames
    → num_frames t.frames ≤ level_inf
    → Returns
        (last_used (num_frames t.frames - 1) (num_frames t.frames) t.frames)
        (λ kept. IsLastUsed t.frames (num_frames t.frames - 1) kept)
unfolding num_frames
kept_lem t some_frame finite =
    let n = length t.frames.frames in
    let same : suc (n - 1) ≡ n = omega arith in
    subst (λ k. Returns (last_used (n - 1) k t.frames) (λ kept. IsLastUsed t.frames (n - 1) kept))
      same (last_used-run (n - 1) t.frames (omega arith) finite)

cleared-run :
    (t : InductiveTrace) (kept : ℕ)
    → 1 ≤ num_frames t.frames
    → last_used (num_frames t.frames - 1) (num_frames t.frames) t.frames ≡ ok kept
    → kept ≤ num_frames t.frames
    → clear_unused_frames t ≡ ok (cleared t kept)
unfolding clear_unused_frames shrink num_frames
cleared-run t kept some_frame run le =
    let some_bit : (length t.frames.frames == 0) ≡ false = ground arith in
    let fits : leb kept (length t.frames.frames) ≡ true = ground arith in
    rw (some_bit, run, fits) refl

cleared-frames :
    (t : InductiveTrace) (kept k : ℕ)
    → kept ≤ num_frames t.frames
    → IsLastUsed t.frames (num_frames t.frames - 1) kept
    → frame_at (cleared t kept).frames k ≡ frame_at t.frames k
unfolding num_frames
cleared-frames t kept k le last =
    frame_at-shrunk t.frames kept k le (λ j l u. last.unused j l (omega arith))

cleared-IsTrimmed :
    (t : InductiveTrace) (kept i : ℕ)
    → kept ≤ num_frames t.frames
    → IsLastUsed t.frames i kept
    → ((k : ℕ) → frame_at (cleared t kept).frames k ≡ frame_at t.frames k)
    → IsTrimmed (cleared t kept).frames
unfolding num_frames
cleared-IsTrimmed t kept i le last same =
    let size = length-resize kept t.frames.frames le in
    elim last.used [
      | inl e ↦ inl (size ∙ e)
      | inr (m, e, full) ↦ inr (m, size ∙ e, λ h. full (sym (same m) ∙ h))
    ]

-- In a well-formed trace with a frame, at most as many as there are levels below infinity,
-- clearUnusedFrames succeeds. Each level has the lemmas it had, lemmas and cubes are unchanged, the
-- last frame that is left is the first or is not empty, and the trace is well-formed.
pub clear_unused_frames-IsWellFormed :
    (t : InductiveTrace)
    → IsWellFormed t
    → 1 ≤ num_frames t.frames
    → num_frames t.frames ≤ level_inf
    → Returns (clear_unused_frames t) (λ t'.
      IsWellFormed t'
      × (t'.lemmas ≡ t.lemmas)
      × (t'.cube_to_lemma_id ≡ t.cube_to_lemma_id)
      × ((k : ℕ) → frame_at t'.frames k ≡ frame_at t.frames k)
      × IsTrimmed t'.frames)
unfolding clear_unused_frames num_frames
clear_unused_frames-IsWellFormed t wf some_frame finite =
    let (kept, run, last) = kept_lem t some_frame finite in
    let le : kept ≤ num_frames t.frames = omega (arith, last.upper) in
    let same : (k : ℕ) → frame_at (cleared t kept).frames k ≡ frame_at t.frames k =
      λ k. cleared-frames t kept k le last in
    (
      cleared t kept,
      cleared-run t kept some_frame run le,
      (
        record {
          ids = wf.ids;
          placed = λ k id. ap (λ f. contains id f) (same k) ∙ wf.placed k id;
          known = wf.known;
          indexed = wf.indexed;
        },
        refl,
        refl,
        same,
        cleared-IsTrimmed t kept (num_frames t.frames - 1) le last same,
      ),
    )
