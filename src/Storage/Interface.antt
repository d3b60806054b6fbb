-- ===== src/Storage/Interface.antt =====
-- What the pallet relies on of the storage of `decl_storage!` (Substrate's support crate, outside
-- of the repository): a map from keys to values, and a map that also lists its entries.
use substra_tee_node_pre.Base.{◌≡◌, Bool, true, false, Option, none, some, List, [], ite}
use substra_tee_node_pre.Storage.Entries.{lookup, put, erase}

-- `map K => V` of `decl_storage!`. `get?` is the value stored under a key.
pub record StorageMap (K V : Type 0) : Type 1 where
  pub Map : Type 0
  pub key_eq : Discrete K
  pub empty : Map
  pub get? : Map → K → Option V
  pub insert : Map → K → V → Map
  pub remove : Map → K → Map
  pub get?-empty : (k : K) → get? empty k ≡ none
  pub get?-insert :
      (m : Map) (k : K) (v : V) (j : K)
      → get? (insert m k v) j ≡ ite (key_eq k j) (some v) (get? m j)
  pub get?-remove : (m : Map) (k j : K) → get? (remove m k) j ≡ ite (key_eq k j) none (get? m j)

-- `linked_map K => V`: the newest key comes first, and a write to a known key keeps its place.
pub record LinkedMap (K V : Type 0) : Type 1 where
  pub map : StorageMap K V
  pub open map use *
  pub enumerate : Map → List (K × V)
  pub lookup-enumerate : (m : Map) (k : K) → lookup key_eq k (enumerate m) ≡ get? m k
  pub enumerate-empty : enumerate empty ≡ []
  pub enumerate-insert :
      (m : Map) (k : K) (v : V) → enumerate (insert m k v) ≡ put key_eq k v (enumerate m)
  pub enumerate-remove : (m : Map) (k : K) → enumerate (remove m k) ≡ erase key_eq k (enumerate m)

module _ {K V : Type 0} (S : StorageMap K V) where
  -- `Map::exists(k)`
  abbrev pub contains : S.Map → K → Bool
  contains m k = elim (S.get? m k) [ none ↦ false | some v ↦ true ]

  -- `Map::get(k)`: the default value stands for a missing one.
  abbrev pub get_or : S.Map → K → V → V
  get_or m k d = elim (S.get? m k) [ none ↦ d | some v ↦ v ]
