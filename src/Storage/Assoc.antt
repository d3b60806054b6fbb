-- ===== src/Storage/Assoc.antt =====
-- A linked map that meets the interface: the list of its entries, with no key twice.
use substra_tee_node_pre.Base.{refl, List, []}
use substra_tee_node_pre.Storage.Entries.{
  lookup, put, erase, IsDistinct, lookup-put, lookup-erase, put-IsDistinct, erase-IsDistinct,
}
use substra_tee_node_pre.Storage.Interface.{StorageMap, LinkedMap}

module _ (K V : Type 0) (eq : Discrete K) where
  abbrev Distinct : Type 0
  Distinct = (l : List (K × V)) × IsDistinct eq l

  abbrev insert : Distinct → K → V → Distinct
  insert (l, d) k v = (put eq k v l, put-IsDistinct eq k v l d)

  abbrev remove : Distinct → K → Distinct
  remove (l, d) k = (erase eq k l, erase-IsDistinct eq k l d)

  abbrev pub assoc_map : StorageMap K V
  assoc_map = record {
    Map = Distinct;
    key_eq = eq;
    empty = ([], tt);
    get? = λ m k. lookup eq k m.0;
    insert = insert;
    remove = remove;
    get?-empty = λ k. refl;
    get?-insert = λ m k v j. lookup-put eq k v m.0 j;
    get?-remove = λ m k j. lookup-erase eq k m.0 j m.1;
  }

  abbrev pub assoc_linked_map : LinkedMap K V
  assoc_linked_map = record {
    map = assoc_map;
    enumerate = λ m. m.0;
    lookup-enumerate = λ m k. refl;
    enumerate-empty = refl;
    enumerate-insert = λ m k v. refl;
    enumerate-remove = λ m k. refl;
  }
