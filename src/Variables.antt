-- ===== src/Variables.antt =====
-- src/pme/engine/variable_manager.h and .cpp: the manager that hands out variables.
use Prim.Native.String.{String}
use Prim.Native.Char.{code}
use pme.Base.{
  ℕ, zero, suc, ◌+◌, ◌/◌, ◌%◌, ◌≡◌, refl, Bool, true, false, not, ◌&&◌, if◌then◌else◌, ltb, leb,
  ◌==◌, List, [], ◌∷◌, ◌++◌,
}
use pme.Base.Maps.{Map, insert, has_key}
use pme.Literal.{PmeId, id_false, id_incr, min_id, max_id}

-- The name of a variable, as the codes of its characters.
abbrev pub Name : Type 0
Name = List ℕ

abbrev pub ExternalId : Type 0
ExternalId = ℕ

pub record Variable : Type 0 where
  pub id : PmeId
  pub external_id : ExternalId
  pub name : Name

pub record VariableManager : Type 0 where
  pub next_id : PmeId
  pub vars : Map Variable
  pub internal_to_external : Map ExternalId
  pub external_to_internal : Map PmeId

abbrev pub codes : String → Name
codes String.[] = []
codes (String.◌∷◌ c s) = code c ∷ codes s

-- The decimal digits that `ostringstream` prints; a number has at most as many as its value plus 1.
decimal : ℕ → ℕ → Name
decimal zero n = []
decimal (suc fuel) n =
    let more = decimal fuel (n / 10) in
    if ltb n 10 then (b'0' + n) ∷ [] else more ++ (b'0' + n % 10) ∷ []

unfoldable pub default_name : PmeId → Name
unfolding decimal
default_name id = codes "ID_" ++ decimal (id + 1) id

unfoldable pub new_variable_manager : VariableManager
new_variable_manager = record {
  next_id = min_id;
  vars = insert id_false (record { id = id_false; external_id = 0; name = codes "false" }) [];
  internal_to_external = insert id_false 0 [];
  external_to_internal = insert 0 id_false [];
}

abbrev is_empty : Name → Bool
is_empty [] = true
is_empty (c ∷ cs) = false

-- The assertions of `getNewID`: the variables have not run out, and neither the new variable nor the
-- external one is mapped already.
unfoldable pub new_id_asserts : ExternalId → VariableManager → Bool
new_id_asserts external vm =
    leb vm.next_id max_id
    && (if external == 0
        then true
        else not (has_key vm.next_id vm.internal_to_external)
          && not (has_key external vm.external_to_internal))

-- Where the assertions hold. The first can fail only past 2^47 variables.
unfoldable pub get_new_id : Name → ExternalId → VariableManager → PmeId × VariableManager
get_new_id name external vm =
    let id = vm.next_id in
    let new_name = if is_empty name then default_name id else name in
    let vars = insert id (record { id = id; external_id = external; name = new_name }) vm.vars in
    (
      id,
      if external == 0 then record vm { next_id = id + id_incr; vars = vars } else record vm {
        next_id = id + id_incr;
        vars = vars;
        internal_to_external = insert id external vm.internal_to_external;
        external_to_internal = insert external id vm.external_to_internal;
      },
    )

-- `getNewID()`
unfoldable pub fresh : VariableManager → PmeId × VariableManager
fresh vm = get_new_id [] 0 vm

pub fresh_id : (vm : VariableManager) → (fresh vm).0 ≡ vm.next_id
unfolding fresh get_new_id
fresh_id vm = refl

pub fresh_next : (vm : VariableManager) → (fresh vm).1.next_id ≡ vm.next_id + 2
unfolding fresh get_new_id
fresh_next vm = refl
