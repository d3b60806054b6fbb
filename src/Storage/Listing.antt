-- ===== src/Storage/Listing.antt =====
-- The number of entries that a linked map lists, after each operation.
use substra_tee_node_pre.Base.{◌+◌, ◌≡◌, ◌∙◌, none, some, length}
use substra_tee_node_pre.Storage.Entries.{length-put_new, length-put_old, length-erase}
use substra_tee_node_pre.Storage.Interface.{LinkedMap}

module _ {K V : Type 0} (M : LinkedMap K V) (m : M.Map) (k : K) where
  pub length-insert_new :
      (v : V)
      → M.get? m k ≡ none
      → length (M.enumerate (M.insert m k v)) ≡ length (M.enumerate m) + 1
  length-insert_new v h =
      rw M.enumerate-insert
        (length-put_new M.key_eq k v (M.enumerate m) (M.lookup-enumerate m k ∙ h))

  pub length-insert_old :
      (v : V) {w : V}
      → M.get? m k ≡ some w
      → length (M.enumerate (M.insert m k v)) ≡ length (M.enumerate m)
  length-insert_old v h =
      rw M.enumerate-insert
        (length-put_old M.key_eq k v (M.enumerate m) (M.lookup-enumerate m k ∙ h))

  pub length-remove :
      {w : V}
      → M.get? m k ≡ some w
      → length (M.enumerate (M.remove m k)) + 1 ≡ length (M.enumerate m)
  length-remove h =
      rw M.enumerate-remove (length-erase M.key_eq k (M.enumerate m) (M.lookup-enumerate m k ∙ h))
