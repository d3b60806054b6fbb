-- ===== src/Service/Tests.antt =====
-- A sentry, and a light client.
use substra_tee_node_pre.Base.{◌≡◌, refl, none, [], ◌∷◌, map}
use substra_tee_node_pre.Base.Outcome.{ok}
use substra_tee_node_pre.Examples.Node.{service_crates, sentry}
use substra_tee_node_pre.Service.{
  fresh, import_queue, new_full_start, start_authoring, start_grandpa, finish_full, new_full,
}
use substra_tee_node_pre.Service.Light.{
  light_queue, new_light, LightService, new_light-LightService,
}
use substra_tee_node_pre.Service.Setup.{new_full_start-finish_full}
use substra_tee_node_pre.Service.Tasks.{kind_of, voting}
use substra_tee_node_pre.Service.Tasks.Ends.{RunsAsConfigured, new_full-RunsAsConfigured}

new_full-RunsAsConfigured_example :
    RunsAsConfigured service_crates sentry (new_full service_crates sentry (fresh service_crates))
new_full-RunsAsConfigured_example = new_full-RunsAsConfigured service_crates sentry

-- A sentry votes, and does not author.
sentry_votes :
    map (kind_of service_crates) (new_full service_crates sentry (fresh service_crates)).1.started
    ≡ voting ∷ []
unfolding new_full new_full_start import_queue finish_full start_authoring start_grandpa
sentry_votes = refl

starts : (new_full_start service_crates sentry (fresh service_crates)).0 ≡ ok tt
unfolding new_full_start import_queue
starts = refl

new_full_start-finish_full_example :
    (setup : Unit {0} × Unit {0}) × (new_full service_crates sentry (fresh service_crates)
      ≡ finish_full service_crates sentry tt setup.0 setup.1
          (record (new_full_start service_crates sentry (fresh service_crates)).1 {
            import_setup = none;
          }))
new_full_start-finish_full_example = new_full_start-finish_full service_crates sentry tt starts

light_starts : new_light service_crates sentry ≡ ok tt
unfolding new_light light_queue
light_starts = refl

new_light-LightService_example : LightService service_crates sentry tt
new_light-LightService_example = new_light-LightService service_crates sentry tt light_starts
