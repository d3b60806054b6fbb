-- ===== src/ChainSpec/Genesis.antt =====
-- src/chain_spec.rs: what the genesis of a chain holds.
use substra_tee_node_pre.Base.{
  ℕ, suc, Bool, true, ◌+◌, ◌*◌, ◌^◌, ◌<◌, ◌≤◌, ◌≡◌, ◌≢◌, ap, refl, List, [], ◌∷◌, none, some,
  Option, String, map, arith, length, get_elem?,
}
use Prim.Native.String.{◌++◌ as append}
use substra_tee_node_pre.Base.Outcome.{ok, collect, some_of, ◌>>=◌}
use substra_tee_node_pre.ChainSpec.Primitives.{Keys}
use substra_tee_node_pre.ChainSpec.{
  Alternative, development, local_testnet, GenesisConfig, testnet_genesis, genesis, get_from_seed,
  get_account_id_from_seed, get_authority_keys_from_seed,
}

module _ (K : Keys) where
  -- The sum of the balances.
  pub total_issuance : List (K.AccountId × ℕ) → ℕ
  total_issuance [] = 0
  total_issuance ((_, b) ∷ rest) = b + total_issuance rest

  -- The accounts with an index are those with a balance, the first of them is the sudo key, the
  -- issuance is within 128 bits, and there are as many voters as block authors, at least one.
  pub record IsSound (g : GenesisConfig K) : Type 0 where
    pub endowed : map (λ b. b.0) g.balances ≡ g.indices
    pub sudo_endowed : get_elem? g.indices 0 ≡ some g.sudo
    pub issued : total_issuance g.balances ≡ length g.indices * 2 ^ 60
    pub issuance_fits : total_issuance g.balances < 2 ^ 128
    pub authors : 1 ≤ length g.aura
    pub voters : length g.grandpa ≡ length g.aura
    pub total_weight : map (λ v. v.1) g.grandpa ≡ map (λ a. 1) g.aura

  total_issuance-map :
      (xs : List K.AccountId) → total_issuance (map (λ k. (k, 2 ^ 60)) xs) ≡ length xs * 2 ^ 60
  unfolding total_issuance
  total_issuance-map [] = refl
  total_issuance-map (x ∷ xs) = let rest = total_issuance-map xs in omega arith

  map-endowed :
      (xs : List K.AccountId) → map (λ (b : K.AccountId × ℕ). b.0) (map (λ k. (k, 2 ^ 60)) xs) ≡ xs
  map-endowed [] = refl
  map-endowed (x ∷ xs) = ap (λ ys. x ∷ ys) (map-endowed xs)

  voters_of :
      (xs : List (K.AuraId × K.GrandpaId))
      → length (map {B = K.GrandpaId × ℕ} (λ x. (x.1, 1)) xs)
        ≡ length (map {B = K.AuraId} (λ x. x.0) xs)
  voters_of [] = refl
  voters_of (x ∷ xs) = ap suc (voters_of xs)

  weights_of :
      (xs : List (K.AuraId × K.GrandpaId))
      → map {B = ℕ} (λ v. v.1) (map {B = K.GrandpaId × ℕ} (λ x. (x.1, 1)) xs)
        ≡ map (λ a. 1) (map {B = K.AuraId} (λ x. x.0) xs)
  weights_of [] = refl
  weights_of (x ∷ xs) = ap (λ ys. 1 ∷ ys) (weights_of xs)

  testnet_genesis-IsSound :
      (a : K.AuraId × K.GrandpaId) (auths : List (K.AuraId × K.GrandpaId)) (root : K.AccountId)
      (others : List K.AccountId) (print : Bool)
      → length others < 2 ^ 60
      → IsSound (testnet_genesis K (a ∷ auths) root (root ∷ others) print)
  unfolding testnet_genesis
  testnet_genesis-IsSound a auths root others print few =
      let total = total_issuance-map (root ∷ others) in
      record {
        endowed = map-endowed (root ∷ others);
        sudo_endowed = refl;
        issued = total;
        issuance_fits = omega arith;
        authors = omega arith;
        voters = voters_of (a ∷ auths);
        total_weight = weights_of (a ∷ auths);
      }

  -- The seeds lead to a key of an account, of an author and of a voter.
  abbrev pub Derives : {Key : Type 0} → (String → Option Key) → List String → Type 0
  Derives from_string [] = Unit {0}
  Derives from_string (s ∷ seeds) = (from_string (append "//" s) ≢ none) × Derives from_string seeds

  pub Derives-all :
      {Key : Type 0} (from_string : String → Option Key)
      → ((s : String) → from_string (append "//" s) ≢ none)
      → (seeds : List String) → Derives from_string seeds
  Derives-all from_string h [] = tt
  Derives-all from_string h (s ∷ seeds) = (h s, Derives-all from_string h seeds)

  pub record HasKeys (authors endowed : List String) : Type 0 where
    pub aura : Derives K.aura_from_string authors
    pub grandpa : Derives K.grandpa_from_string authors
    pub accounts : Derives K.sr25519_from_string endowed

  -- The seeds of the authors and of the accounts with a balance, in either chain.
  abbrev pub authors_of : Alternative → List String
  authors_of development = "Alice" ∷ []
  authors_of local_testnet = "Alice" ∷ "Bob" ∷ []

  abbrev pub endowed_of : Alternative → List String
  endowed_of development = "Alice" ∷ "Bob" ∷ "Alice//stash" ∷ "Bob//stash" ∷ []
  endowed_of local_testnet =
      "Alice" ∷ "Bob" ∷ "Charlie" ∷ "Dave" ∷ "Eve" ∷ "Ferdie" ∷ "Alice//stash" ∷ "Bob//stash"
      ∷ "Charlie//stash" ∷ "Dave//stash" ∷ "Eve//stash" ∷ "Ferdie//stash" ∷ []

  account_of :
      (s : String)
      → K.sr25519_from_string (append "//" s) ≢ none
      → (a : K.AccountId) × (get_account_id_from_seed K s ≡ ok a)
  unfolding get_account_id_from_seed get_from_seed
  account_of s derives =
      let (key, h) = some_of (K.sr25519_from_string (append "//" s)) derives in
      (K.into_account key, ground arith)

  authority_of :
      (s : String)
      → K.aura_from_string (append "//" s) ≢ none
      → K.grandpa_from_string (append "//" s) ≢ none
      → (a : K.AuraId × K.GrandpaId) × (get_authority_keys_from_seed K s ≡ ok a)
  unfolding get_authority_keys_from_seed get_from_seed
  authority_of s aura_derives grandpa_derives =
      let (key, h) = some_of (K.aura_from_string (append "//" s)) aura_derives in
      let (vote, g) = some_of (K.grandpa_from_string (append "//" s)) grandpa_derives in
      ((key, vote), ground arith)

  accounts :
      (seeds : List String)
      → Derives K.sr25519_from_string seeds
      → (found : List K.AccountId) × (collect (get_account_id_from_seed K) seeds ≡ ok found)
        × (length found ≡ length seeds)
  unfolding collect
  accounts [] d = ([], refl, refl)
  accounts (s ∷ seeds) d =
      let (a, h) = account_of s d.0 in
      let (rest, g, n) = accounts seeds d.1 in (a ∷ rest, rw (h, g) refl, ap suc n)

  authorities :
      (seeds : List String)
      → Derives K.aura_from_string seeds
      → Derives K.grandpa_from_string seeds
      → (found : List (K.AuraId × K.GrandpaId)) × (collect (get_authority_keys_from_seed K) seeds
          ≡ ok found)
  unfolding collect
  authorities [] d e = ([], refl)
  authorities (s ∷ seeds) d e =
      let (a, h) = authority_of s d.0 e.0 in
      let (rest, g) = authorities seeds d.1 e.1 in (a ∷ rest, rw (h, g) refl)

  made :
      (first : String) (authors endowed : List String)
      → length endowed < 2 ^ 60
      → HasKeys (first ∷ authors) ("Alice" ∷ endowed)
      → (g : GenesisConfig K) × ((collect (get_authority_keys_from_seed K) (first ∷ authors)
            >>= λ auths. get_account_id_from_seed K "Alice" >>= λ root.
                collect (get_account_id_from_seed K) ("Alice" ∷ endowed) >>= λ accounts.
                ok (testnet_genesis K auths root accounts true))
          ≡ ok g)
        × IsSound g
  unfolding collect testnet_genesis
  made first authors endowed few k =
      let (author, h) = authority_of first k.aura.0 k.grandpa.0 in
      let (others, g) = authorities authors k.aura.1 k.grandpa.1 in
      let (root, r) = account_of "Alice" k.accounts.0 in
      let (rest, e, n) = accounts endowed k.accounts.1 in
      (
        testnet_genesis K (author ∷ others) root (root ∷ rest) true,
        rw (h, g, r, e) refl,
        testnet_genesis-IsSound author others root rest true (omega (arith, n)),
      )

  -- If the seeds of a chain lead to the keys that they are used for, the genesis of the chain can be
  -- made, and it is sound: the accounts with an index are those with a balance, the sudo key is
  -- the first of them, the balances sum up to 2^60 for each account and to less than 2^128, and
  -- there are as many voters, of weight 1, as block authors, at least one.
  pub genesis-IsSound :
      (a : Alternative)
      → HasKeys (authors_of a) (endowed_of a)
      → (g : GenesisConfig K) × (genesis K a ≡ ok g) × IsSound g
  unfolding genesis
  genesis-IsSound development k = made _ _ _ (omega arith) k
  genesis-IsSound local_testnet k = made _ _ _ (omega arith) k
