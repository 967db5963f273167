-- ===== src/VmtfOrder.antt =====
-- `VmtfOrder` of src/solver.rs: the variables in the order in which they were last bumped, as a
-- doubly linked list within an array, with the place where the search for a variable goes on.

pub mod Linked
pub mod Queue
pub mod Moves
pub mod Search
pub mod Bump
pub mod Examples
use satrap.Prelude.{
  ℕ, zero, suc, ◌+◌, ◌-◌, ◌^◌, Bool, true, false, not, ◌&&◌, Option, none, some, List, [], ◌∷◌,
  ◌++◌, ltb, leb, ◌==◌, length, get_or, set, if◌then◌else◌,
}
use satrap.Lit.{Var}
use satrap.Elimination.{Value, unassigned}
use satrap.VarOrder.{assigned}

-- `usize::MAX`, and `u64::MAX` for the stamps
abbrev pub disconnected : ℕ
disconnected = 2 ^ 64 - 1

abbrev pub max_stamp : ℕ
max_stamp = 2 ^ 64 - 1

pub record VmtfLink : Type 0 where
  pub previous : ℕ
  pub next : ℕ
  pub stamp : ℕ

pub record VmtfOrder : Type 0 where
  pub links : List VmtfLink
  pub first : ℕ
  pub last : ℕ
  pub search : ℕ
  pub stamp : ℕ

abbrev pub default : VmtfOrder
default = record {
  links = [];
  first = disconnected;
  last = disconnected;
  search = disconnected;
  stamp = 0;
}

-- The default stands for a read out of bounds.
abbrev pub link_of : List VmtfLink → ℕ → VmtfLink
link_of links i =
    get_or links i (record { previous = disconnected; next = disconnected; stamp = 0 })

abbrev pub is_assigned : List Value → ℕ → Bool
is_assigned assignments i = assigned (get_or assignments i unassigned)

abbrev pub set_previous : List VmtfLink → ℕ → ℕ → List VmtfLink
set_previous links i v = set links i (record (link_of links i) { previous = v })

abbrev pub set_next : List VmtfLink → ℕ → ℕ → List VmtfLink
set_next links i v = set links i (record (link_of links i) { next = v })

abbrev pub set_stamp : List VmtfLink → ℕ → ℕ → List VmtfLink
set_stamp links i v = set links i (record (link_of links i) { stamp = v })

-- The loop that numbers the stamps again, from a link on. A variable is passed once, so the length is
-- enough fuel.
unfoldable pub restamp : ℕ → ℕ → ℕ → List VmtfLink → List VmtfLink × ℕ
restamp zero current stamp links = (links, stamp)
restamp (suc fuel) current stamp links =
    let more =
      restamp fuel (link_of links current).next (suc stamp) (set_stamp links current (suc stamp)) in
    if current == disconnected then (links, stamp) else more

unfoldable pub advance_stamp : VmtfOrder → VmtfOrder
unfolding restamp
advance_stamp o =
    let again = restamp (length o.links) o.first 0 o.links in
    if o.stamp == max_stamp
    then record o { links = again.0; stamp = suc again.1 }
    else record o { stamp = suc o.stamp }

-- A round of `grow`
unfoldable pub add_variable : VmtfOrder → VmtfOrder
unfolding advance_stamp
add_variable old =
    let o = advance_stamp old in
    let index = length o.links in
    let links =
      o.links ++ record { previous = o.last; next = disconnected; stamp = o.stamp } ∷ [] in
    record o {
      links = if o.last == disconnected then links else set_next links o.last index;
      first = if o.last == disconnected then index else o.first;
      last = index;
      search = index;
    }

-- `grow`, by a number of variables
unfoldable pub grow : ℕ → VmtfOrder → VmtfOrder
unfolding add_variable
grow zero o = o
grow (suc n) o = grow n (add_variable o)

-- The search leaves an assigned variable before that is moved.
abbrev pub left_search : Var → List Value → VmtfOrder → ℕ
left_search v assignments o =
    let l = link_of o.links v in
    if (o.search == v) && is_assigned assignments v
    then if l.previous == disconnected then l.next else l.previous
    else o.search

abbrev pub unlink : Var → VmtfOrder → VmtfOrder
unlink v o =
    let l = link_of o.links v in
    let links =
      if l.previous == disconnected then o.links else set_next o.links l.previous l.next in
    record o {
      first = if l.previous == disconnected then l.next else o.first;
      links = if l.next == disconnected then links else set_previous links l.next l.previous;
    }

-- A variable that is not linked becomes the last.
abbrev pub append_last : Var → List Value → VmtfOrder → VmtfOrder
append_last v assignments o =
    let links =
      set o.links v (record { previous = o.last; next = disconnected; stamp = o.stamp }) in
    record o {
      links = set_next links o.last v;
      last = v;
      search = if is_assigned assignments v then o.search else v;
    }

unfoldable pub move_to_front : Var → List Value → VmtfOrder → VmtfOrder
unfolding advance_stamp
move_to_front v assignments o =
    if v == o.last
    then if is_assigned assignments v then o else record o { search = v }
    else append_last v assignments
        (advance_stamp (unlink v (record o { search = left_search v assignments o })))

-- `sort_unstable_by_key`: stamps of different variables differ.
abbrev pub insert_by_stamp : VmtfOrder → Var → List Var → List Var
insert_by_stamp o v [] = v ∷ []
insert_by_stamp o v (w ∷ ws) =
    let rest = insert_by_stamp o v ws in
    if leb (link_of o.links v).stamp (link_of o.links w).stamp then v ∷ w ∷ ws else w ∷ rest

abbrev pub sort_by_stamp : VmtfOrder → List Var → List Var
sort_by_stamp o [] = []
sort_by_stamp o (v ∷ vs) = insert_by_stamp o v (sort_by_stamp o vs)

unfoldable pub move_all : List Var → List Value → VmtfOrder → VmtfOrder
unfolding move_to_front
move_all [] assignments o = o
move_all (v ∷ vs) assignments o = move_all vs assignments (move_to_front v assignments o)

unfoldable pub bump_analyzed : List Var → List Value → VmtfOrder → VmtfOrder
unfolding move_all
bump_analyzed variables assignments o = move_all (sort_by_stamp o variables) assignments o

unfoldable pub unassign : Var → VmtfOrder → VmtfOrder
unassign v o =
    if o.search == disconnected
    then record o { search = v }
    else if ltb (link_of o.links o.search).stamp (link_of o.links v).stamp
    then record o { search = v }
    else o

-- The loop of `pick` and of `reset_search`: it ends at a variable without a value, or past the first.
-- Stamps fall from round to round, so the stamp at the start and one is enough fuel.
unfoldable pub seek : ℕ → List Value → List VmtfLink → ℕ → ℕ
seek zero assignments links search = search
seek (suc fuel) assignments links search =
    let more = seek fuel assignments links (link_of links search).previous in
    if search == disconnected
    then search
    else if is_assigned assignments search
    then more
    else search

unfoldable pub reset_search : List Value → VmtfOrder → VmtfOrder
unfolding seek
reset_search assignments o = record o {
  search = seek (suc (link_of o.links o.last).stamp) assignments o.links o.last;
}

unfoldable pub pick : List Value → VmtfOrder → Option Var × VmtfOrder
unfolding seek
pick assignments o =
    let found = seek (suc (link_of o.links o.search).stamp) assignments o.links o.search in
    (if found == disconnected then none else some found, record o { search = found })
