-- ===== src/Trace/Sorting.antt =====
-- `sortCube` of src/pme/ic3/inductive_trace.cpp and the comparison of cubes.
use pme.Base.{◌≡◌, refl, subst, true, ◌&&◌, ◌==◌, ==_iff, ==_refl, [], ◌∷◌, Bool-cases, inl, inr}
use pme.Literal.{Cube}
use pme.Base.Sorting.{sorted_list_idem}
use pme.Trace.{sort_cube, cube_eq}

pub sort_cube_idem : (xs : Cube) → sort_cube (sort_cube xs) ≡ sort_cube xs
unfolding sort_cube
sort_cube_idem xs = sorted_list_idem xs

pub cube_eq→≡ : (xs ys : Cube) → cube_eq xs ys ≡ true → xs ≡ ys
unfolding cube_eq
cube_eq→≡ [] [] h = refl
cube_eq→≡ [] (y ∷ ys) h = cc h
cube_eq→≡ (x ∷ xs) [] h = cc h
cube_eq→≡ (x ∷ xs) (y ∷ ys) h = elim (Bool-cases (x == y)) [
  | inl e ↦
      let rest : cube_eq xs ys ≡ true = subst (λ b. (b && cube_eq xs ys) ≡ true) e h in
      cc ((==_iff x y).0 e, cube_eq→≡ xs ys rest)
  | inr e ↦ cc (subst (λ b. (b && cube_eq xs ys) ≡ true) e h)
]

pub cube_eq_refl : (xs : Cube) → cube_eq xs xs ≡ true
unfolding cube_eq
cube_eq_refl [] = refl
cube_eq_refl (x ∷ xs) = rw (==_refl x) (cube_eq_refl xs)
