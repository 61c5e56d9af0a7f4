-- ===== src/Zfs/Imports.antt =====
-- The import of src/lib.rs ends with a pool or an error.
use lamzfs.Common.{◌≢◌, List}
use lamzfs.Outcome.{panic, NoPanic, NoPanic->>=, ne-panic}
use lamzfs.Vendored.{Vendored}
use lamzfs.BlockRead.{PoolMember}
use lamzfs.Walk.Safe.{BonusFits}
use lamzfs.Pool.{peek_pool_id, import}
use lamzfs.Pool.Safe.{MosTyped, peek_pool_id-NoPanic, import-NoPanic}
use lamzfs.Zfs.{peek, import_pool}

module _ (v : Vendored) (members : List PoolMember) (fits : BonusFits v) where
  peek-NoPanic : (member : PoolMember) → NoPanic (peek v member)
  unfolding peek
  peek-NoPanic member =
      NoPanic->>= (peek_pool_id v member) _ (peek_pool_id-NoPanic v member) λ id _. tt

  import_pool-NoPanic : MosTyped v members → NoPanic (import_pool v members)
  unfolding import_pool
  import_pool-NoPanic typed =
      NoPanic->>= (import v members) _ (import-NoPanic v members fits typed) λ pool _. tt

  -- Given that the dnode decoder keeps the bonus length within the bonus, and that each object of
  -- the MOS that the label of member 0 and the newest uberblock lead to has a first block of at
  -- least eight bytes, or none, if the object can be read, an import ends with a pool or an error,
  -- whatever the labels hold; so does a peek at any device.
  pub import_pool-ne-panic :
      (member : PoolMember)
      → MosTyped v members
      → (peek v member ≢ panic) × (import_pool v members ≢ panic)
  import_pool-ne-panic member typed =
      (ne-panic _ (peek-NoPanic member), ne-panic _ (import_pool-NoPanic typed))
