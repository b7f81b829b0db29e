-- ===== src/Mis/Find.antt =====
-- `findSafeMIS` of src/pme/util/find_safe_mis.cpp as a whole.
use pme.Base.{
  Bool, ◌≡◌, refl, sym, ◌∙◌, true, false, List, ◌+◌, Within, length, Returns, Bool-cases, inl, inr,
  arith,
}
use pme.Base.Sorting.{sorted_list, member-sorted_list, length-sorted_list}
use pme.Base.Distinct.{sorted_list-Distinct}
use pme.Literal.{ClauseId}
use pme.Checker.{Checker, AllKnown}
use pme.Mis.{contains_all_of, is_inductive, is_safe_inductive, find_safe_mis}
use pme.Mis.Sound.{contains_all_of-Within, is_inductive-exact, IsMis, mis_loop-IsMis}

module _ (c : Checker) (vec nec : List ClauseId) (s : c.State) (k : AllKnown c vec) where
  sorted-within : Within (sorted_list vec) vec
  sorted-within x h = sym (member-sorted_list x vec) ∙ h

  within-sorted : Within vec (sorted_list vec)
  within-sorted x h = member-sorted_list x vec ∙ h

  safe_run : contains_all_of vec nec ≡ true → is_safe_inductive c vec nec s ≡ is_inductive c vec s
  unfolding is_safe_inductive
  safe_run all = rw all refl

  unsorted :
      (r : Bool × List ClauseId × c.State) → IsMis c (sorted_list vec) nec r → IsMis c vec nec r
  unsorted r d = record {
    within = λ x h. sorted-within x (d.within x h);
    distinct = λ z. d.distinct (sorted_list-Distinct vec z);
    inductive = d.inductive;
    safe = d.safe;
    largest = λ e set ind part. d.largest e set ind (λ x h. within-sorted x (part x h));
    none = λ e set ind part. d.none e set ind (λ x h. within-sorted x (part x h));
  }

  -- On clauses that the checker knows, `findSafeMIS` comes to an end without a failed assertion. With
  -- `true` it leaves an inductive subset that has the necessary clauses and contains every inductive
  -- subset; with `false`, no inductive subset has the necessary clauses.
  pub find_safe_mis-IsMis : Returns (find_safe_mis c vec nec s) (λ r. IsMis c vec nec r)
  unfolding find_safe_mis
  find_safe_mis-IsMis = elim (Bool-cases (contains_all_of vec nec)) [
    | inl all ↦
        let w : Within nec vec = (contains_all_of-Within vec nec).0 all in
        elim (Bool-cases (is_inductive c vec s).0) [
          | inl ind ↦ (
            (true, vec, (is_inductive c vec s).1),
            rw (all, safe_run all, ind) refl,
            record {
              within = λ x h. h;
              distinct = λ z. z;
              inductive = λ e. (is_inductive-exact c vec s k).0 ind;
              safe = λ e. w;
              largest = λ e set i part. part;
              none = λ e. absurd (cc e);
            },
          )
          | inr not_ind ↦
              let (r, run, d) =
                mis_loop-IsMis c (length vec + 1) nec (sorted_list vec) (is_inductive c vec s).1
                  (λ x h. k x (sorted-within x h)) (λ x h. within-sorted x (w x h))
                  (omega (arith, length-sorted_list vec)) in
              (r, rw (all, safe_run all, not_ind) run, unsorted r d)
        ]
    | inr missing ↦ (
      (false, vec, s),
      rw missing refl,
      record {
        within = λ x h. h;
        distinct = λ z. z;
        inductive = λ e. absurd (cc e);
        safe = λ e. absurd (cc e);
        largest = λ e. absurd (cc e);
        none = λ e set i part w.
            cc ((contains_all_of-Within vec nec).1 (λ x h. part x (w x h)), missing);
      },
    )
  ]
