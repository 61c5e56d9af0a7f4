-- ===== src/Pool/Nv/Safe.antt =====
-- The nvlist helpers of src/pool.rs end with a value or an error, whatever the nvlist.
use lamzfs.Common.{String, bytes_eq}
use lamzfs.Common.Bytes.{codes}
use lamzfs.Error.{not_found}
use lamzfs.Outcome.{Outcome, ok, err, panic, NoPanic, NoPanic->>=, NoPanic-if}
use lamzfs.Phys.{
  NvList, nil, bad, pair, NvValue, u64, str, list, list_array, NvLists, end, bad_child, child,
}
use lamzfs.Pool.Nv.{
  nv_find, present, nv_has, get_u64, get_str, get_nv_list, get_nv_list_array, nv_u64, nv_str,
  nv_nvlist, child_guids, nv_child_guids,
}

nv_find-NoPanic : (l : NvList) (key : String) → NoPanic (nv_find l key)
unfolding nv_find
nv_find-NoPanic nil key = tt
nv_find-NoPanic (bad rest) key = tt
nv_find-NoPanic (pair name value rest) key =
    NoPanic-if (bytes_eq name (codes key)) _ _ tt (nv_find-NoPanic rest key)

present-NoPanic : (o : Outcome NvValue) → NoPanic o → NoPanic (present o)
unfolding present
present-NoPanic (ok value) h = tt
present-NoPanic (err (not_found c)) h = tt
present-NoPanic (err e) h = tt
present-NoPanic panic h = h

pub nv_has-NoPanic : (l : NvList) (key : String) → NoPanic (nv_has l key)
unfolding nv_has
nv_has-NoPanic l key = present-NoPanic (nv_find l key) (nv_find-NoPanic l key)

get_u64-NoPanic : (value : NvValue) → NoPanic (get_u64 value)
unfolding get_u64
get_u64-NoPanic (u64 n) = tt
get_u64-NoPanic _ = tt

get_str-NoPanic : (value : NvValue) → NoPanic (get_str value)
unfolding get_str
get_str-NoPanic (str s) = tt
get_str-NoPanic _ = tt

get_nv_list-NoPanic : (value : NvValue) → NoPanic (get_nv_list value)
unfolding get_nv_list
get_nv_list-NoPanic (list l) = tt
get_nv_list-NoPanic _ = tt

get_nv_list_array-NoPanic : (value : NvValue) → NoPanic (get_nv_list_array value)
unfolding get_nv_list_array
get_nv_list_array-NoPanic (list_array ls) = tt
get_nv_list_array-NoPanic _ = tt

pub nv_u64-NoPanic : (l : NvList) (key : String) → NoPanic (nv_u64 l key)
unfolding nv_u64
nv_u64-NoPanic l key =
    NoPanic->>= (nv_find l key) _ (nv_find-NoPanic l key) λ value _. get_u64-NoPanic value

pub nv_str-NoPanic : (l : NvList) (key : String) → NoPanic (nv_str l key)
unfolding nv_str
nv_str-NoPanic l key =
    NoPanic->>= (nv_find l key) _ (nv_find-NoPanic l key) λ value _. get_str-NoPanic value

pub nv_nvlist-NoPanic : (l : NvList) (key : String) → NoPanic (nv_nvlist l key)
unfolding nv_nvlist
nv_nvlist-NoPanic l key =
    NoPanic->>= (nv_find l key) _ (nv_find-NoPanic l key) λ value _. get_nv_list-NoPanic value

child_guids-NoPanic : (ls : NvLists) → NoPanic (child_guids ls)
unfolding child_guids
child_guids-NoPanic end = tt
child_guids-NoPanic (bad_child rest) = tt
child_guids-NoPanic (child l rest) =
    NoPanic->>= (nv_u64 l "guid") _ (nv_u64-NoPanic l "guid")
      λ guid _. NoPanic->>= (child_guids rest) _ (child_guids-NoPanic rest) λ guids _. tt

pub nv_child_guids-NoPanic : (vtree : NvList) → NoPanic (nv_child_guids vtree)
unfolding nv_child_guids
nv_child_guids-NoPanic vtree =
    NoPanic->>= (nv_find vtree "children") _ (nv_find-NoPanic vtree "children") λ value _.
      NoPanic->>= (get_nv_list_array value) _ (get_nv_list_array-NoPanic value)
        λ children _. child_guids-NoPanic children
