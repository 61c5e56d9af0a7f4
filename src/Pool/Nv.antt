-- ===== src/Pool/Nv.antt =====
-- The nvlist helpers of src/pool.rs.
pub mod Safe
use lamzfs.Common.{ℕ, String, Bool, true, false, List, [], ◌∷◌, bytes_eq, if◌then◌else◌}
use lamzfs.Common.Bytes.{codes}
use lamzfs.Error.{Error, Location, inconsistent, not_found}
use lamzfs.Outcome.{Outcome, ok, err, panic, ◌>>=◌}
use lamzfs.Phys.{
  NvList, nil, bad, pair, NvValue, u64, str, list, list_array, NvLists, end, bad_child, child,
}

abbrev pub nv_error : String → Error
nv_error token = inconsistent token (Location.vdev 0)

unfoldable pub nv_find : NvList → String → Outcome NvValue
nv_find nil key = err (not_found key)
nv_find (bad rest) key = err (nv_error "nv_decode")
nv_find (pair name value rest) key =
    if bytes_eq name (codes key) then ok value else nv_find rest key

-- Only `NotFound` means absent.
unfoldable pub present : Outcome NvValue → Outcome Bool
present (ok _) = ok true
present (err (not_found _)) = ok false
present (err e) = err e
present panic = panic

unfoldable pub nv_has : NvList → String → Outcome Bool
unfolding nv_find present
nv_has l key = present (nv_find l key)

get_u64 : NvValue → Outcome ℕ
get_u64 (u64 n) = ok n
get_u64 _ = err (nv_error "nv_u64")

get_str : NvValue → Outcome (List ℕ)
get_str (str s) = ok s
get_str _ = err (nv_error "nv_str")

get_nv_list : NvValue → Outcome NvList
get_nv_list (list l) = ok l
get_nv_list _ = err (nv_error "nv_nvlist")

get_nv_list_array : NvValue → Outcome NvLists
get_nv_list_array (list_array ls) = ok ls
get_nv_list_array _ = err (nv_error "nv_children")

unfoldable pub nv_u64 : NvList → String → Outcome ℕ
unfolding nv_find get_u64
nv_u64 l key = do value ← nv_find l key; get_u64 value

unfoldable pub nv_str : NvList → String → Outcome (List ℕ)
unfolding nv_find get_str
nv_str l key = do value ← nv_find l key; get_str value

unfoldable pub nv_nvlist : NvList → String → Outcome NvList
unfolding nv_find get_nv_list
nv_nvlist l key = do value ← nv_find l key; get_nv_list value

-- The loop over the children.
child_guids : NvLists → Outcome (List ℕ)
unfolding nv_u64
child_guids end = ok []
child_guids (bad_child rest) = err (nv_error "nv_child")
child_guids (child l rest) = do guid ← nv_u64 l "guid"; guids ← child_guids rest; ok (guid ∷ guids)

unfoldable pub nv_child_guids : NvList → Outcome (List ℕ)
unfolding nv_find get_nv_list_array child_guids
nv_child_guids vtree = do
  value ← nv_find vtree "children"
  children ← get_nv_list_array value
  child_guids children
