-- ===== src/Examples/Imports.antt =====
-- An example of an import that ends.
use lamzfs.Common.{◌≡◌, ◌≢◌, refl, ap, sym, ◌∙◌, [], ◌∷◌, bytes_eq}
use lamzfs.Common.Bytes.{codes}
use lamzfs.Outcome.{ok, panic, ok-injective}
use lamzfs.Phys.{bp_order, is_newer_than}
use lamzfs.BlockRead.{read_exact}
use lamzfs.Vdev.Tree.{single}
use lamzfs.Pool.{LabelConfig, read_label}
use lamzfs.Pool.Labels.{select_uberblock}
use lamzfs.Pool.Safe.{MosTyped, label_topology}
use lamzfs.Zfs.{peek, import_pool}
use lamzfs.Zfs.Imports.{import_pool-ne-panic}
use lamzfs.Examples.{toy, toy-BonusFits, zap_device, ub_0, one_disk}
use lamzfs.Examples.Listings.{pool-Typed}

abbrev config_0 : LabelConfig
config_0 = record { guid = 77; name = codes "tank"; ashift = 13; layout = single 0 }

reads_label : read_label toy zap_device (zap_device ∷ []) ≡ ok config_0
unfolding read_label read_exact bytes_eq
reads_label = refl

selects : select_uberblock toy (zap_device ∷ []) one_disk 13 ≡ ok ub_0
unfolding select_uberblock read_exact is_newer_than
selects = refl

one_disk-MosTyped : MosTyped toy (zap_device ∷ [])
unfolding bp_order
one_disk-MosTyped first config ub meta at label active root =
    let device : zap_device ≡ first = cc in
    let config_is : config_0 ≡ config =
      ok-injective
        (sym reads_label ∙ ap (λ m. read_label toy m (zap_device ∷ [])) device ∙ label) in
    let ub_is : ub_0 ≡ ub = ok-injective (
      sym selects
      ∙ ap (λ (c : LabelConfig). select_uberblock toy (zap_device ∷ []) (label_topology c) c.ashift)
          config_is
      ∙ active) in
    rw (← config_is, ← ub_is) (pool-Typed meta)

import_pool-ne-panic_example :
    (peek toy zap_device ≢ panic) × (import_pool toy (zap_device ∷ []) ≢ panic)
import_pool-ne-panic_example =
    import_pool-ne-panic toy (zap_device ∷ []) toy-BonusFits zap_device one_disk-MosTyped
