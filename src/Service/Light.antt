-- ===== src/Service/Light.antt =====
-- src/service.rs: the light client.
use mathlib.Core.Option
use substra_tee_node_pre.Base.{◌≡◌, ◌∙◌, sym, ap, Option, none, some, arith}
use substra_tee_node_pre.Base.Outcome.{Outcome, ok, ok_or, some_of, ok_of, ◌>>=◌}
use substra_tee_node_pre.Service.Crates.{ServiceCrates}

module _ (C : ServiceCrates) where
  -- The closure that `new_light` gives to `with_import_queue_and_fprb`.
  unfoldable pub light_queue :
      C.Client → C.Backend → Option C.Fetcher → Outcome (C.Queue × C.ProofRequestBuilder)
  light_queue client backend fetcher = do
    fetch_checker ←
        ok_or (Option.map C.checker fetcher)
          "Trying to start light import queue without active fetch checker"
    grandpa_block_import ← C.light_block_import client backend fetch_checker
    slot_duration ← C.slot_duration client
    queue ←
        C.import_queue slot_duration grandpa_block_import none (some grandpa_block_import) client
          none
    ok (queue, C.proof_request_builder grandpa_block_import)

  unfoldable pub new_light : C.Config → Outcome C.Service
  unfolding light_queue
  new_light config = do
    builder ← C.new_light config
    with_chain ← C.with_select_chain builder
    with_pool ← C.with_transaction_pool with_chain
    with_queue ← C.with_import_queue_and_fprb light_queue with_pool
    with_network ← C.with_network_protocol with_queue
    with_proofs ← C.with_finality_proof_provider with_network
    C.build with_proofs

  -- The import queue of a light client with these parts, and what it asks for proofs with: the queue
  -- checks what the fetcher brings, takes finality proofs and no justifications, and feeds no
  -- transaction pool.
  pub record LightQueue (client : C.Client) (backend : C.Backend) (fetcher : Option C.Fetcher)
      (made : C.Queue × C.ProofRequestBuilder) : Type 0 where
    pub active : C.Fetcher
    pub block_import : C.BlockImport
    pub slot_duration : C.SlotDuration
    pub fetches : fetcher ≡ some active
    pub checked : C.light_block_import client backend (C.checker active) ≡ ok block_import
    pub timed : C.slot_duration client ≡ ok slot_duration
    pub queues :
        C.import_queue slot_duration block_import none (some block_import) client none ≡ ok made.0
    pub proves : made.1 ≡ C.proof_request_builder block_import

  light_queue-LightQueue :
      (client : C.Client) (backend : C.Backend) (fetcher : Option C.Fetcher)
      (made : C.Queue × C.ProofRequestBuilder)
      → light_queue client backend fetcher ≡ ok made
      → LightQueue client backend fetcher made
  unfolding light_queue
  light_queue-LightQueue client backend fetcher made h =
      let (f, fetches) = some_of fetcher (λ e. ground arith) in
      let (block_import, checked) =
        ok_of (C.light_block_import client backend (C.checker f)) (λ m e. ground arith)
          (λ x e. ground arith) in
      let (slot, timed) =
        ok_of (C.slot_duration client) (λ m e. ground arith) (λ x e. ground arith) in
      let (queue, queues) =
        ok_of (C.import_queue slot block_import none (some block_import) client none)
          (λ m e. ground arith) (λ x e. ground arith) in
      let same : (queue, C.proof_request_builder block_import) ≡ made = ground arith in
      record {
        active = f;
        block_import = block_import;
        slot_duration = slot;
        fetches = fetches;
        checked = checked;
        timed = timed;
        queues = queues ∙ ap (λ m. ok m.0) same;
        proves = sym (ap (λ m. m.1) same);
      }

  -- The service is built from the configuration, with the import queue of a light client in it.
  pub record LightService (config : C.Config) (service : C.Service) : Type 0 where
    pub new : C.Builder
    pub chained : C.Builder
    pub pooled : C.Builder
    pub networked : C.Builder
    pub proven : C.Builder
    pub made : C.Queue × C.ProofRequestBuilder
    pub begins : C.new_light config ≡ ok new
    pub selects : C.with_select_chain new ≡ ok chained
    pub pools : C.with_transaction_pool chained ≡ ok pooled
    pub queued : LightQueue (C.client_of pooled) (C.backend_of pooled) (C.fetcher_of pooled) made
    pub speaks : C.with_network_protocol (C.put_queue pooled made) ≡ ok networked
    pub finalizes : C.with_finality_proof_provider networked ≡ ok proven
    pub builds : C.build proven ≡ ok service

  -- When `new_light` returns a service, it is built from the configuration in the steps of
  -- `LightService`. The import queue in it is made of the builder's own client, back end and
  -- fetcher: it checks what the fetcher brings, which is there, takes finality proofs and no
  -- justifications, and feeds no transaction pool.
  pub new_light-LightService :
      (config : C.Config) (service : C.Service)
      → new_light config ≡ ok service
      → LightService config service
  unfolding new_light
  new_light-LightService config service h =
      let (b, begins) = ok_of (C.new_light config) (λ m e. ground arith) (λ x e. ground arith) in
      let (b1, selects) =
        ok_of (C.with_select_chain b) (λ m e. ground arith) (λ x e. ground arith) in
      let (b2, pools) =
        ok_of (C.with_transaction_pool b1) (λ m e. ground arith) (λ x e. ground arith) in
      let (b3, queues) =
        ok_of (C.with_import_queue_and_fprb light_queue b2) (λ m e. ground arith)
          (λ x e. ground arith) in
      let (b4, speaks) =
        ok_of (C.with_network_protocol b3) (λ m e. ground arith) (λ x e. ground arith) in
      let (b5, finalizes) =
        ok_of (C.with_finality_proof_provider b4) (λ m e. ground arith) (λ x e. ground arith) in
      let (made, calls, same) = C.with_import_queue_and_fprb-ok light_queue b2 b3 queues in
      record {
        new = b;
        chained = b1;
        pooled = b2;
        networked = b4;
        proven = b5;
        made = made;
        begins = begins;
        selects = selects;
        pools = pools;
        queued =
            light_queue-LightQueue (C.client_of b2) (C.backend_of b2) (C.fetcher_of b2) made calls;
        speaks = ap C.with_network_protocol (sym same) ∙ speaks;
        finalizes = finalizes;
        builds = ground arith;
      }
