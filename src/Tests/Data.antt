-- ===== src/Tests/Data.antt =====
-- src/core_py/data.py at concrete inputs.
use core_py.Base.{ℕ, true, false, none, some, [], ◌∷◌, ◌++◌, arith, ◌≡◌, refl, ◌↔◌, All, List}
use core_py.Base.Text.{codes, split, strip, str_eq, is_space, lstrip, rstrip, rstrip_cons}
use core_py.Base.Unseen.{mem}
use core_py.Data.{
  Heap, Kind, error, foreign, search_chain, found, out_of_fuel, pick_code, pick_payload, code_of,
  error_data, next, walk, own_code, new_resource_not_found_error, new_resource_error,
}
use core_py.Data.Chain.{First, search_chain_iff, search_chain-ends}
use core_py.Data.Wrap.{IsClosed, Below}
use core_py.Data.Sort.{
  SortPair, get_sort_info, HasField, get_sort_info_lem, split_space, words, sort_pair, sort_entry,
  sort_entries,
}

-- A not-found error raised from a foreign exception, which has it as its context: a cycle.
abbrev cyclic : Heap
cyclic =
    record { kind = foreign; cause = none; context = some 1 }
    ∷ record { kind = error 20002 (codes "x"); cause = some 0; context = none }
    ∷ []

cyclic-IsClosed : IsClosed cyclic
unfolding IsClosed Below next
cyclic-IsClosed = (omega arith, (omega arith, tt))

code_of-cyclic : code_of cyclic (some 0) ≡ 20002
unfolding code_of search_chain walk mem next pick_code own_code
code_of-cyclic = refl

error_data-cyclic : error_data cyclic (some 0) ≡ none
unfolding error_data search_chain walk mem next pick_payload
error_data-cyclic = refl

not_found-named :
    new_resource_not_found_error (codes "user")
    ≡ Kind.resource_error 20002 (codes "resource not found: user") (codes "user")
unfolding new_resource_not_found_error new_resource_error
not_found-named = refl

search_chain-ends_example : ¬ (search_chain pick_payload cyclic (some 0) ≡ out_of_fuel)
search_chain-ends_example = search_chain-ends pick_payload cyclic (some 0)

search_chain_iff_example :
    (search_chain pick_code cyclic (some 0) ≡ found 20002)
    ↔ ((n : ℕ) × First pick_code cyclic n (some 0) 20002)
search_chain_iff_example = search_chain_iff pick_code cyclic (some 0) 20002

get_sort_info-spaced :
    get_sort_info (codes " a  desc ,, b asc")
    ≡ some (
        record { field = codes "a"; is_descending = true }
        ∷ record { field = codes "b"; is_descending = false }
        ∷ [])
unfolding get_sort_info sort_entries sort_entry sort_pair words split_space split strip lstrip
    rstrip rstrip_cons is_space str_eq
get_sort_info-spaced = refl

get_sort_info_lem_example :
    (ps : List SortPair) × (qs : List SortPair) × (get_sort_info (codes "a desc") ≡ some ps)
    × (get_sort_info (codes " b") ≡ some qs)
    × (get_sort_info (codes "a desc" ++ b',' ∷ codes " b") ≡ some (ps ++ qs))
    × All HasField (ps ++ qs)
get_sort_info_lem_example = get_sort_info_lem (codes "a desc") (codes " b")
