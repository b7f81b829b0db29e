-- ===== src/Trace/FrameStore.antt =====
-- The class `Frames` of src/pme/ic3/inductive_trace.h and .cpp, and the set of lemmas that is a
-- frame.
use pme.Base.{
  ℕ, zero, suc, ◌+◌, ◌-◌, Bool, true, false, not, ◌||◌, if◌then◌else◌, ltb, leb, ◌==◌, List, [],
  ◌∷◌, ◌++◌, length, take, get_elem?, none, some, Result, ok, fault, out_of_range, ◌>>=◌, ◌>>◌,
  check,
}

abbrev pub LemmaId : Type 0
LemmaId = ℕ

-- `std::set<LemmaID>`, as its elements in some order
abbrev pub Frame : Type 0
Frame = List LemmaId

pub record Frames : Type 0 where
  pub frames : List Frame
  pub frame_inf : Frame

abbrev pub level_inf : ℕ
level_inf = 4294967295

unfoldable pub contains : LemmaId → Frame → Bool
contains id [] = false
contains id (x ∷ f) = if x == id then true else contains id f

unfoldable pub insert_id : LemmaId → Frame → Frame
insert_id id f = if contains id f then f else id ∷ f

unfoldable pub erase_id : LemmaId → Frame → Frame
erase_id id [] = []
erase_id id (x ∷ f) = let rest = erase_id id f in if x == id then rest else x ∷ rest

unfoldable pub insert_all : Frame → Frame → Frame
insert_all [] f = f
insert_all (x ∷ xs) f = insert_all xs (insert_id x f)

-- `resize`: new frames are empty.
unfoldable pub padding : ℕ → List Frame
padding zero = []
padding (suc n) = [] ∷ padding n

unfoldable pub resize : ℕ → List Frame → List Frame
resize n fs = take n fs ++ padding (n - length fs)

-- Write at an index, where there is such an entry.
unfoldable pub set_at {ℓ} : {A : Type ℓ} → ℕ → A → List A → List A
set_at i y [] = []
set_at zero y (x ∷ xs) = y ∷ xs
set_at (suc i) y (x ∷ xs) = x ∷ set_at i y xs

unfoldable pub frame_exists : ℕ → Frames → Bool
frame_exists level fs = level == level_inf || ltb level (length fs.frames)

unfoldable pub create_frame : ℕ → Frames → Result Frames
create_frame level fs = do
  check (not (frame_exists level fs))
  check (not (level == level_inf))
  check (leb (length fs.frames) level)
  ok (record fs { frames = resize (level + 1) fs.frames })

-- `m_frames.at(level) = g(m_frames.at(level))`
unfoldable pub write_frame : ℕ → (Frame → Frame) → Frames → Result Frames
write_frame level g fs = elim (get_elem? fs.frames level) [
  | none ↦ fault out_of_range
  | some f ↦ ok (record fs { frames = set_at level (g f) fs.frames })
]

-- A change through the reference that `getMutableFrame` returns.
unfoldable pub get_mutable_frame : ℕ → (Frame → Frame) → Frames → Result Frames
get_mutable_frame level g fs =
    if level == level_inf then ok (record fs { frame_inf = g fs.frame_inf }) else (do
      created ← if frame_exists level fs then ok fs else create_frame level fs
      write_frame level g created)

unfoldable pub get_frame : ℕ → Frames → Result Frame
get_frame level fs = if level == level_inf then ok fs.frame_inf else (do
  check (frame_exists level fs)
  elim (get_elem? fs.frames level) [ none ↦ fault out_of_range | some f ↦ ok f ])

unfoldable pub num_frames : Frames → ℕ
num_frames fs = length fs.frames

unfoldable pub add_lemma_to_frame : LemmaId → ℕ → Frames → Result Frames
add_lemma_to_frame id level fs = get_mutable_frame level (insert_id id) fs

-- The lemmas of a level; a level that no frame stands for has none.
unfoldable pub frame_at : Frames → ℕ → Frame
frame_at fs level =
    if level == level_inf
    then fs.frame_inf
    else elim (get_elem? fs.frames level) [ none ↦ [] | some f ↦ f ]

-- The assertion is that one element was erased.
unfoldable pub remove_lemma_from_frame : LemmaId → ℕ → Frames → Result Frames
remove_lemma_from_frame id level fs = do
  fs' ← get_mutable_frame level (erase_id id) fs
  check (contains id (frame_at fs level))
  ok fs'

unfoldable pub shrink : ℕ → Frames → Result Frames
shrink n fs = do check (leb n (length fs.frames)); ok (record fs { frames = resize n fs.frames })

unfoldable pub empty_frames : Frames
empty_frames = record { frames = []; frame_inf = [] }
