-- ===== src/Examples/Lifecycles.antt =====
-- Two replicas that are started and stopped; and the paths of a configuration.
use dstest.Prelude.{
  ℕ, zero, suc, ◌++◌, ◌≡◌, ◌<◌, refl, false, [], ◌∷◌, some, ok, get_or, arith, Returns, All,
}
use dstest.Prelude.Text.{Text, codes}
use dstest.Config.{Config}
use dstest.Config.Paths.{modify_filepath, modify_filepath-map}
use dstest.Process.{running, crashed, decide_bug}
use dstest.Process.Lifecycle.{init, shutdown}
use dstest.Process.Start.{IsStarted, init-IsStarted}
use dstest.Process.Status.{AllDone}
use dstest.Process.Stop.{IsQuiet, IsSound, shutdown-AllDone}
use dstest.Examples.Strategies.{config}
use dstest.Examples.Processes.{manager}

own_ids : (i : ℕ) → i < 2 → get_or (0 ∷ 1 ∷ []) i 0 ≡ i
own_ids zero h = refl
own_ids (suc zero) h = refl
own_ids (suc (suc i)) h = absurd (omega arith)

init-IsStarted_example : Returns (init config (0 ∷ 1 ∷ []) 4) (IsStarted config 4)
init-IsStarted_example = init-IsStarted config (0 ∷ 1 ∷ []) 4 (refl, own_ids) (omega arith)

empty_file : IsQuiet (some [])
empty_file = refl

both-IsSound : All IsSound (manager running crashed 1 []).workers
both-IsSound = ((refl, refl), ((refl, refl), tt))

shutdown-AllDone_example :
    Returns
      (shutdown (λ key. some []) (λ key. some []) (manager running crashed 1 []))
      λ pm. AllDone pm.workers × AllDone pm.client_workers × ((decide_bug pm).bug_candidate ≡ false)
shutdown-AllDone_example =
    shutdown-AllDone (λ key. some []) (λ key. some []) (manager running crashed 1 []) refl
      (λ key. (empty_file, empty_file)) tt both-IsSound

abbrev join : Text → Text → Text
join directory path = directory ++ codes "/" ++ path

abbrev joined : Config ℕ
joined = record config {
  process_config = record config.process_config {
    output_dir = codes "dstest/";
    replica_script = codes "dstest/";
    client_scripts = codes "dstest/" ∷ codes "dstest/" ∷ [];
  };
}

modify_filepath-map_example : modify_filepath join (codes "dstest") config ≡ ok joined
modify_filepath-map_example = modify_filepath-map join (codes "dstest") config
