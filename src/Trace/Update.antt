-- ===== src/Trace/Update.antt =====
-- What a write through `getMutableFrame` of src/pme/ic3/inductive_trace.cpp changes: it always
-- succeeds, and only the frame of the level is another.
use pme.Base.{
  ℕ, zero, suc, ◌+◌, ◌-◌, ◌≤◌, ◌<◌, ◌≡◌, refl, ap, sym, ◌∙◌, subst, true, false, if◌then◌else◌, ltb,
  leb, ◌==◌, List, [], ◌∷◌, length, get_elem?, Option, none, some, ok, Returns, Bool-cases, ltb→lt,
  inl, inr, arith,
}
use pme.Trace.FrameStore.{
  LemmaId, Frame, Frames, level_inf, contains, insert_id, erase_id, padding, resize, set_at,
  frame_exists, create_frame, write_frame, get_mutable_frame, frame_at,
}

contains-known :
    (id j : LemmaId) (f : Frame)
    → contains id f ≡ true
    → contains j f ≡ (if id == j then true else contains j f)
unfolding contains
contains-known id j [] h = ground arith
contains-known id j (x ∷ f) h = ground (arith, contains-known id j f)

contains-cons :
    (id j : LemmaId) (f : Frame) → contains j (id ∷ f) ≡ (if id == j then true else contains j f)
unfolding contains
contains-cons id j f = refl

pub contains-insert_id :
    (id j : LemmaId) (f : Frame)
    → contains j (insert_id id f) ≡ (if id == j then true else contains j f)
unfolding insert_id
contains-insert_id id j f = elim (Bool-cases (contains id f)) [
  | inl h ↦ rw h (contains-known id j f h)
  | inr h ↦ rw h (contains-cons id j f)
]

pub contains-erase_id :
    (id j : LemmaId) (f : Frame)
    → contains j (erase_id id f) ≡ (if id == j then false else contains j f)
unfolding contains erase_id
contains-erase_id id j [] = ground arith
contains-erase_id id j (x ∷ f) = ground (arith, contains-erase_id id j f)

module _ {ℓ} {A : Type ℓ} where
  pub get_elem?-set_at :
      (i j : ℕ) (y : A) (xs : List A)
      → i < length xs
      → get_elem? (set_at i y xs) j ≡ (if i == j then some y else get_elem? xs j)
  unfolding set_at
  get_elem?-set_at i j y [] h = absurd (omega arith)
  get_elem?-set_at zero zero y (x ∷ xs) h = refl
  get_elem?-set_at zero (suc j) y (x ∷ xs) h = ground arith
  get_elem?-set_at (suc i) zero y (x ∷ xs) h = ground arith
  get_elem?-set_at (suc i) (suc j) y (x ∷ xs) h =
      ground (arith, get_elem?-set_at i j y xs (omega arith))

  pub length-set_at : (i : ℕ) (y : A) (xs : List A) → length (set_at i y xs) ≡ length xs
  unfolding set_at
  length-set_at i y [] = refl
  length-set_at zero y (x ∷ xs) = refl
  length-set_at (suc i) y (x ∷ xs) = omega (arith, length-set_at i y xs)

  pub get_elem?-inside : (xs : List A) (i : ℕ) → i < length xs → (x : A) × (get_elem? xs i ≡ some x)
  get_elem?-inside [] i h = absurd (omega arith)
  get_elem?-inside (x ∷ xs) zero h = (x, refl)
  get_elem?-inside (x ∷ xs) (suc i) h = get_elem?-inside xs i (omega arith)

-- An entry, or the empty frame past the end.
abbrev entry : Option Frame → Frame
entry none = []
entry (some f) = f

abbrev entry_at : List Frame → ℕ → Frame
entry_at fs i = entry (get_elem? fs i)

entry_at-padding : (n i : ℕ) → entry_at (padding n) i ≡ []
unfolding padding
entry_at-padding zero i = refl
entry_at-padding (suc n) zero = refl
entry_at-padding (suc n) (suc i) = entry_at-padding n i

length-padding : (n : ℕ) → length (padding n) ≡ n
unfolding padding
length-padding zero = refl
length-padding (suc n) = omega (arith, length-padding n)

-- Growing a vector keeps what stands in it, and gives it its size.
entry_at-resize :
    (n : ℕ) (fs : List Frame) (i : ℕ) → length fs ≤ n → entry_at (resize n fs) i ≡ entry_at fs i
unfolding resize padding
entry_at-resize zero [] i h = refl
entry_at-resize zero (f ∷ fs) i h = absurd (omega arith)
entry_at-resize (suc n) [] i h = entry_at-padding (suc n - 0) i
entry_at-resize (suc n) (f ∷ fs) zero h = refl
entry_at-resize (suc n) (f ∷ fs) (suc i) h =
    let e : suc n - suc (length fs) ≡ n - length fs = omega arith in
    rw e (entry_at-resize n fs i (omega arith))

length-resize : (n : ℕ) (fs : List Frame) → length (resize n fs) ≡ n
unfolding resize padding
length-resize zero fs = let e : 0 - length fs ≡ 0 = omega arith in rw e refl
length-resize (suc n) [] = omega (arith, length-padding (suc n - 0))
length-resize (suc n) (f ∷ fs) =
    let e : suc n - suc (length fs) ≡ n - length fs = omega arith in
    rw e (omega (arith, length-resize n fs))

frame_at-below :
    (fs : Frames) (k : ℕ) → (k == level_inf) ≡ false → frame_at fs k ≡ entry_at fs.frames k
unfolding frame_at
frame_at-below fs k h = rw h refl

frame_at-inf : (fs : Frames) (k : ℕ) → (k == level_inf) ≡ true → frame_at fs k ≡ fs.frame_inf
unfolding frame_at
frame_at-inf fs k h = rw h refl

-- The frames after a change of one level.
abbrev pub Changed : ℕ → (Frame → Frame) → Frames → Frames → Type 0
Changed level g fs fs' =
    (k : ℕ) → frame_at fs' k ≡ (if level == k then g (frame_at fs k) else frame_at fs k)

entry_at-set_at :
    (level k : ℕ) (f : Frame) (fs : List Frame)
    → level < length fs
    → entry_at (set_at level f fs) k ≡ (if level == k then f else entry_at fs k)
entry_at-set_at level k f fs h = elim (Bool-cases (level == k)) [
  | inl e ↦ ap entry (get_elem?-set_at level k f fs h) ∙ rw e refl
  | inr e ↦ ap entry (get_elem?-set_at level k f fs h) ∙ rw e refl
]

write_frame-run :
    (level : ℕ) (g : Frame → Frame) (fs : Frames)
    → level < length fs.frames
    → write_frame level g fs
      ≡ ok (record fs { frames = set_at level (g (entry_at fs.frames level)) fs.frames })
unfolding write_frame
write_frame-run level g fs h =
    let (f, e) = get_elem?-inside fs.frames level h in rw (write_frame, e) refl

write_frame-Changed :
    (level : ℕ) (g : Frame → Frame) (fs : Frames)
    → level < length fs.frames
    → (level == level_inf) ≡ false
    → Changed level g fs
        (record fs { frames = set_at level (g (entry_at fs.frames level)) fs.frames })
write_frame-Changed level g fs h low k = elim (Bool-cases (k == level_inf)) [
  | inl e ↦
      let other : (level == k) ≡ false = ground arith in
      frame_at-inf _ k e ∙ rw other (sym (frame_at-inf fs k e))
  | inr e ↦
      frame_at-below _ k e
      ∙ entry_at-set_at level k (g (entry_at fs.frames level)) fs.frames h
      ∙ elim (Bool-cases (level == k)) [
        | inl same ↦
            let p : level ≡ k = ground arith in
            rw same (
              ap g (
                subst (λ j. entry_at fs.frames level ≡ entry_at fs.frames j) p refl
                ∙ sym (frame_at-below fs k e)))
        | inr other ↦ rw other (sym (frame_at-below fs k e))
      ]
]

-- A frame that is missing is created, and it is empty like all the new ones before it.
created-same :
    (n : ℕ) (fs : Frames) (k : ℕ)
    → length fs.frames ≤ n
    → frame_at (record fs { frames = resize n fs.frames }) k ≡ frame_at fs k
created-same n fs k h = elim (Bool-cases (k == level_inf)) [
  | inl e ↦ frame_at-inf _ k e ∙ sym (frame_at-inf fs k e)
  | inr e ↦ frame_at-below _ k e ∙ entry_at-resize n fs.frames k h ∙ sym (frame_at-below fs k e)
]

create_frame-run :
    (level : ℕ) (fs : Frames)
    → (level == level_inf) ≡ false
    → ltb level (length fs.frames) ≡ false
    → create_frame level fs ≡ ok (record fs { frames = resize (level + 1) fs.frames })
unfolding create_frame frame_exists
create_frame-run level fs low new =
    let t : leb (length fs.frames) level ≡ true = ground arith in rw (low, new, t) refl

pub get_mutable_frame-Changed :
    (level : ℕ) (g : Frame → Frame) (fs : Frames)
    → Returns (get_mutable_frame level g fs) (λ fs'. Changed level g fs fs')
unfolding get_mutable_frame frame_exists
get_mutable_frame-Changed level g fs = elim (Bool-cases (level == level_inf)) [
  | inl inf ↦ (
    record fs { frame_inf = g fs.frame_inf },
    rw inf refl,
    λ k. elim (Bool-cases (k == level_inf)) [
      | inl e ↦
          let same : (level == k) ≡ true = ground arith in
          frame_at-inf _ k e ∙ rw same (ap g (sym (frame_at-inf fs k e)))
      | inr e ↦
          let other : (level == k) ≡ false = ground arith in
          frame_at-below _ k e ∙ rw other (sym (frame_at-below fs k e))
    ],
  )
  | inr low ↦ elim (Bool-cases (ltb level (length fs.frames))) [
    | inl there ↦
        let l = ltb→lt level (length fs.frames) there in
        (_, rw (low, there) (write_frame-run level g fs l), write_frame-Changed level g fs l low)
    | inr new ↦
        let grown : Frames = record fs { frames = resize (level + 1) fs.frames } in
        let l : level < length grown.frames = omega (arith, length-resize (level + 1) fs.frames) in
        let small : length fs.frames ≤ level + 1 = ground arith in
        (
          _,
          rw (low, new, create_frame-run level fs low new) (write_frame-run level g grown l),
          λ k.
              write_frame-Changed level g grown l low k
              ∙ ap (λ f. if level == k then g f else f) (created-same (level + 1) fs k small),
        )
  ]
]
