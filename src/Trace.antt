-- ===== src/Trace.antt =====
-- src/pme/ic3/inductive_trace.h and .cpp: the frames of IC3 and the lemmas that stand in them.
pub mod FrameStore
pub mod Invariant
pub mod Preserved
pub mod Sorting
pub mod Added
pub mod Grown
pub mod AddLemma
pub mod FullFrame
pub mod Trimmed
mod Tests
pub mod Update
use pme.Base.{
  ℕ, zero, suc, ◌+◌, ◌-◌, ◌%◌, ◌^◌, Bool, true, false, not, ◌&&◌, if◌then◌else◌, leb, ◌==◌, List,
  [], ◌∷◌, ◌++◌, length, get_elem?, Option, none, some, Result, ok, fault, out_of_range,
  assertion_failed, ◌>>=◌, ◌>>◌, check,
}
use pme.Literal.{PmeId, Cube}
use pme.Base.Sorting.{sorted_list}
use pme.Trace.FrameStore.{
  LemmaId, Frame, Frames, level_inf, insert_all, get_frame, num_frames, add_lemma_to_frame,
  remove_lemma_from_frame, shrink, empty_frames, set_at,
}

pub record LemmaData : Type 0 where
  pub id : LemmaId
  pub cube : Cube
  pub level : ℕ
  pub deleted : Bool

pub record InductiveTrace : Type 0 where
  pub frames : Frames
  pub lemmas : List LemmaData
  pub cube_to_lemma_id : List (Cube × LemmaId)

unfoldable pub sort_cube : Cube → Cube
sort_cube cube = sorted_list cube

unfoldable pub cube_eq : Cube → Cube → Bool
cube_eq [] [] = true
cube_eq [] (y ∷ ys) = false
cube_eq (x ∷ xs) [] = false
cube_eq (x ∷ xs) (y ∷ ys) = x == y && cube_eq xs ys

-- `m_cube_to_lemma_id.find(cube)`
unfoldable pub find_cube : Cube → List (Cube × LemmaId) → Option LemmaId
find_cube cube [] = none
find_cube cube ((key, id) ∷ m) = if cube_eq key cube then some id else find_cube cube m

-- The cube is sorted, but the map is asked for the cube as it came.
unfoldable pub lemma_exists : InductiveTrace → Cube → Bool
lemma_exists t cube = elim (find_cube cube t.cube_to_lemma_id) [ none ↦ false | some id ↦ true ]

unfoldable pub id_of : InductiveTrace → Cube → Result LemmaId
id_of t cube = elim (find_cube (sort_cube cube) t.cube_to_lemma_id) [
  | none ↦ fault out_of_range
  | some id ↦ ok id
]

unfoldable pub get_lemma : InductiveTrace → LemmaId → Result LemmaData
get_lemma t id = elim (get_elem? t.lemmas id) [ none ↦ fault out_of_range | some l ↦ ok l ]

unfoldable pub lemma_is_active : InductiveTrace → Cube → Result Bool
lemma_is_active t cube =
    if lemma_exists t cube
    then (do id ← id_of t cube; lemma ← get_lemma t id; ok (not lemma.deleted))
    else ok false

unfoldable pub level_of : InductiveTrace → LemmaId → Result ℕ
level_of t id = do lemma ← get_lemma t id; ok lemma.level

unfoldable pub level_of_cube : InductiveTrace → Cube → Result ℕ
level_of_cube t cube = do check (lemma_exists t cube); id ← id_of t cube; level_of t id

unfoldable pub cube_of : InductiveTrace → LemmaId → Result Cube
cube_of t id = do lemma ← get_lemma t id; ok lemma.cube

-- The lemma takes a new level and stands in the frames as given.
unfoldable pub store : LemmaData → Frames → InductiveTrace → InductiveTrace
store lemma frames t = record t { frames = frames; lemmas = set_at lemma.id lemma t.lemmas }

-- The case of `addLemma` for a cube that is known.
unfoldable pub add_known : LemmaData → ℕ → InductiveTrace → Result (LemmaId × InductiveTrace)
add_known lemma level t = do
  frames ←
      if lemma.deleted
      then ok t.frames
      else (do check (leb lemma.level level); remove_lemma_from_frame lemma.id lemma.level t.frames)
  frames' ← add_lemma_to_frame lemma.id level frames
  ok (lemma.id, store (record lemma { level = level; deleted = false }) frames' t)

-- The case for a cube that is new; the map has no entry for it. `LemmaID` is an `unsigned`, which the size of
-- the vector is cut to.
unfoldable pub add_new : Cube → ℕ → InductiveTrace → Result (LemmaId × InductiveTrace)
add_new cube level t = do
  let id = length t.lemmas % 2 ^ 32
  let added : LemmaData = record { id = id; cube = cube; level = level; deleted = false }
  let lemmas = t.lemmas ++ added ∷ []
  lemma ← get_lemma (record t { lemmas = lemmas }) id
  frames ← add_lemma_to_frame lemma.id level t.frames
  ok (
    lemma.id,
    record {
      frames = frames;
      lemmas = lemmas;
      cube_to_lemma_id = (cube, lemma.id) ∷ t.cube_to_lemma_id;
    },
  )

unfoldable pub add_lemma : Cube → ℕ → InductiveTrace → Result (LemmaId × InductiveTrace)
add_lemma cube level t =
    let sorted = sort_cube cube in
    if lemma_exists t sorted
    then (do id ← id_of t sorted; lemma ← get_lemma t id; add_known lemma level t)
    else add_new sorted level t

unfoldable pub remove_lemma : LemmaId → InductiveTrace → Result InductiveTrace
remove_lemma id t = do
  lemma ← get_lemma t id
  frames ← remove_lemma_from_frame lemma.id lemma.level t.frames
  ok (store (record lemma { deleted = true }) frames t)

unfoldable pub push_lemma : LemmaId → ℕ → InductiveTrace → Result InductiveTrace
push_lemma id level t = do
  lemma ← get_lemma t id
  check (leb lemma.level level)
  frames ← remove_lemma_from_frame lemma.id lemma.level t.frames
  frames' ← add_lemma_to_frame lemma.id level frames
  ok (store (record lemma { level = level }) frames' t)

-- The loop of `getFullFrame`, over `count` frames from `level` on.
unfoldable pub union_frames : ℕ → ℕ → Frames → Frame → Result Frame
union_frames zero level fs full = ok full
union_frames (suc count) level fs full = do
  frame ← get_frame level fs
  union_frames count (suc level) fs (insert_all frame full)

unfoldable pub get_full_frame : InductiveTrace → ℕ → Result Frame
get_full_frame t level = do
  full ← get_frame level_inf t.frames
  union_frames (num_frames t.frames - level) level t.frames full

-- The loop of `clearUnusedFrames`: `i` goes down to 1 while the frames are empty.
unfoldable pub last_used : ℕ → ℕ → Frames → Result ℕ
last_used zero k fs = ok k
last_used (suc i) k fs = do
  frame ← get_frame (suc i) fs
  let next = last_used i (suc i) fs
  elim frame [ [] ↦ next | x ∷ xs ↦ ok k ]

-- With no frame at all the loop would start from the largest `unsigned`, and its first frame, the
-- one at infinity, decides: it stops there unless that is empty, and the frame before it does not
-- exist.
unfoldable pub clear_unused_frames : InductiveTrace → Result InductiveTrace
clear_unused_frames t = do
  let k = num_frames t.frames
  kept ←
      if k == 0
      then elim t.frames.frame_inf [ [] ↦ fault assertion_failed | x ∷ xs ↦ ok k ]
      else last_used (k - 1) k t.frames
  frames ← shrink kept t.frames
  ok (record t { frames = frames })

unfoldable pub clear : InductiveTrace → InductiveTrace
clear t = record { frames = empty_frames; lemmas = []; cube_to_lemma_id = [] }
