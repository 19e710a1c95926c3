-- ===== src/Engine/Kept.antt =====
-- What the loop over the steps leaves alone while only requests arrive and every process is launched: the
-- replicas' workers, the interceptors and both wait groups; the clients that it starts go on running.
use dstest.Prelude.{
  assign, ℕ, ◌+◌, ◌≡◌, ◌≢◌, ◌∙◌, refl, ap, sym, subst, Bool, true, false, List, [], ◌∷◌, ok,
  >>=-eq-ok, at, pos, negsuc, ℤ, All, All-assign, arith, Option-cases, inl, inr, get_elem?,
}
use dstest.Prelude.Text.{Text}
use dstest.Prelude.Machine.{Floats, Generator}
use dstest.Config.{ProcessConfig}
use dstest.Network.Message.{Message}
use dstest.Network.Translator.{Frame}
use dstest.Network.Manager.{Manager, intercept, get_actions, send_message_by_id}
use dstest.Network.Manager.Fixed.{Untouched, intercept-Untouched, send_message-Untouched}
use dstest.Process.{Worker, ProcessManager, start_worker, client, running}
use dstest.Process.Lifecycle.{init_worker}
use dstest.Process.Clients.{run_client, generate_client_worker_config}
use dstest.Process.Stop.{IsSound}
use dstest.Scheduling.Decision.{SchedulerType, DecisionType, no_op, send_message, inject_fault}
use dstest.Scheduling.Strategy
use dstest.Scheduling.Strategy.{Outside}
use dstest.Scheduling.Strategy.Kinds.{kind, get_client_request-kind, next-IsPlain}
use dstest.Engine.{
  TestEngine, Round, Loop, Happening, happen, happen_all, request, send, execute, execute_as,
  run_round, run_steps,
}
use dstest.Engine.Arrivals.{IsArrival}
use dstest.Engine.Busy.{IsBusy}
use dstest.Engine.Rounds.{run_steps-keeps}

-- The worker of a client that was launched.
abbrev client_worker : ProcessConfig → Text → ℕ → Worker
client_worker config script id = record {
  run_script = script;
  clean_script = [];
  num_replicas = 0;
  base_interceptor_port = 0;
  worker_id = id;
  type = client;
  params = [];
  timeout_seconds = config.timeout;
  status = running;
  launched = true;
}

run_client-keeps :
    (config : ProcessConfig) (sc : ℕ) (pm pm' : ProcessManager)
    → run_client config true sc pm ≡ ok pm'
    → All IsSound pm.client_workers
    → (pm'.workers ≡ pm.workers) × (pm'.wait_group ≡ pm.wait_group) × All IsSound pm'.client_workers
unfolding run_client generate_client_worker_config init_worker start_worker
run_client-keeps config sc pm pm' e sound =
    elim (Option-cases (get_elem? config.client_scripts sc)) [
      | inl missing ↦ let stopped = rw (missing, generate_client_worker_config) at e in cc
      | inr (script, found) ↦
          let made = rw (found, generate_client_worker_config) at e in
          let id = pm.client_id_counter + 1 in
          let same : assign id (client_worker config script id) pm.client_workers
              ≡ pm'.client_workers =
            ground arith in
          (
            ground arith,
            ground arith,
            subst (All IsSound) same (
                All-assign IsSound id (client_worker config script id) pm.client_workers
                  (refl, refl) sound),
          )
    ]

module _ (fl : Floats) (g : Generator fl.F) where
  pub record Kept (pm : ProcessManager) (nm : Manager) (l : Loop fl g) : Type 0 where
    pub workers : l.processes.workers ≡ pm.workers
    pub wait_group : l.processes.wait_group ≡ pm.wait_group
    pub clients : All IsSound l.processes.client_workers
    pub going : l.ended ≡ false
    pub network : Untouched nm l.network
    pub strategy : kind fl g l.scheduler ≡ SchedulerType.random

  -- Only requests arrive, and the process of a client is launched.
  abbrev pub IsCalm : Round fl g → Type 0
  IsCalm round = IsBusy fl g round × (round.launched ≡ true)

  module _ (pm : ProcessManager) (nm : Manager) where
    network_changes :
        (l : Loop fl g) (nm' : Manager)
        → Untouched l.network nm'
        → Kept pm nm l
        → Kept pm nm (record l { network = nm' })
    network_changes l nm' u k = record {
      workers = k.workers;
      wait_group = k.wait_group;
      clients = k.clients;
      going = k.going;
      network = record {
        interceptors = u.interceptors ∙ k.network.interceptors;
        wait_group = u.wait_group ∙ k.network.wait_group;
      };
      strategy = k.strategy;
    }

    happen_all-Kept :
        (frames : List ℕ → List Frame) (hs : List Happening) (l l' : Loop fl g)
        → All IsArrival hs
        → happen_all fl g frames hs l ≡ ok l'
        → Kept pm nm l
        → Kept pm nm l'
    unfolding happen_all happen
    happen_all-Kept frames [] l l' a e k = let same : l ≡ l' = ground arith in rw (← same) k
    happen_all-Kept frames (Happening.arrives payload port ∷ hs) l l' a e k =
        let (m, first, rest) =
          >>=-eq-ok (happen fl g frames (Happening.arrives payload port) l) _ e in
        let (nm', made, last) = >>=-eq-ok (intercept frames payload port l.network) _ first in
        let same : record l { network = nm' } ≡ m = ground arith in
        happen_all-Kept frames hs m l' a.1 rest (
          rw (← same)
            (network_changes l nm' (intercept-Untouched frames payload port l.network nm' made) k))
    happen_all-Kept frames (Happening.replica_ends ending key ∷ hs) l l' a e k = absurd a.0
    happen_all-Kept frames (Happening.client_ends ending key ∷ hs) l l' a e k = absurd a.0
    happen_all-Kept frames (Happening.run_ends ∷ hs) l l' a e k = absurd a.0

    module _ (out : Outside fl g) (frames : List ℕ → List Frame) (decimal : ℕ → Text)
        (te : TestEngine fl g) where
      request-Kept :
          (sc : ℤ) (l l' : Loop fl g)
          → request fl g out frames decimal te true sc l ≡ ok l'
          → Kept pm nm l
          → Kept pm nm l'
      unfolding request
      request-Kept (negsuc i) l l' e k = let same : l ≡ l' = ground arith in rw (← same) k
      request-Kept (pos sc) l l' e k =
          let (pm', first, last) =
            >>=-eq-ok (run_client te.config.process_config true sc l.processes) _ e in
          let (workers, counter, clients) =
            run_client-keeps te.config.process_config sc l.processes pm' first k.clients in
          let processes : l'.processes ≡ pm' = ground arith in
          let network : l'.network ≡ l.network = ground arith in
          let ended : l'.ended ≡ l.ended = ground arith in
          let scheduler : l'.scheduler ≡ l.scheduler = ground arith in
          record {
            workers = ap (λ (p : ProcessManager). p.workers) processes ∙ workers ∙ k.workers;
            wait_group =
                ap (λ (p : ProcessManager). p.wait_group) processes ∙ counter ∙ k.wait_group;
            clients =
                subst (λ (p : ProcessManager). All IsSound p.client_workers) (sym processes)
                  clients;
            going = ended ∙ k.going;
            network = subst (Untouched nm) (sym network) k.network;
            strategy = ap (kind fl g) scheduler ∙ k.strategy;
          }

      execute_as-Kept :
          (t : DecisionType) (launched : Bool) (actions : List Message) (i : ℕ) (l l' : Loop fl g)
          → t ≢ inject_fault
          → execute_as fl g out frames decimal te t launched actions i l ≡ ok l'
          → Kept pm nm l
          → Kept pm nm l'
      unfolding execute_as send
      execute_as-Kept no_op launched actions i l l' plain e k =
          let same : l ≡ l' = ground arith in rw (← same) k
      execute_as-Kept send_message launched actions i l l' plain e k =
          let (m, _, rest) = >>=-eq-ok (at actions (pos i)) _ e in
          let (nm', sent, last) = >>=-eq-ok (send_message_by_id l.network m.message_id) _ rest in
          let here =
            network_changes l nm' (send_message-Untouched l.network nm' m.message_id sent) k in
          let processes : l'.processes ≡ l.processes = ground arith in
          let network : l'.network ≡ nm' = ground arith in
          let ended : l'.ended ≡ l.ended = ground arith in
          let scheduler : l'.scheduler ≡ l.scheduler = ground arith in
          record {
            workers = ap (λ (p : ProcessManager). p.workers) processes ∙ k.workers;
            wait_group = ap (λ (p : ProcessManager). p.wait_group) processes ∙ k.wait_group;
            clients =
                subst (λ (p : ProcessManager). All IsSound p.client_workers) (sym processes)
                  k.clients;
            going = ended ∙ k.going;
            network = subst (Untouched nm) (sym network) here.network;
            strategy = ap (kind fl g) scheduler ∙ k.strategy;
          }
      execute_as-Kept inject_fault launched actions i l l' plain e k = absurd (plain refl)

      run_round-Kept :
          (round : Round fl g) (l l' : Loop fl g)
          → IsCalm round
          → Kept pm nm l
          → run_round fl g out frames decimal te round l ≡ ok l'
          → Kept pm nm l'
      unfolding run_round execute
      run_round-Kept round l l' calm k e =
          let actions = get_actions l.network.message_queues in
          let ((sc, asked), a, e1) = >>=-eq-ok (Strategy.get_client_request fl g l.scheduler) _ e in
          let (l1, b, e2) =
            >>=-eq-ok
              (request fl g out frames decimal te round.launched sc
                (record l { scheduler = asked }))
              _ e1 in
          let ((d, chosen), c, e3) =
            >>=-eq-ok (Strategy.next fl g out round.draw actions l1.scheduler) _ e2 in
          let (l2, f, e4) =
            >>=-eq-ok (happen_all fl g frames round.meanwhile (record l1 { scheduler = chosen })) _
              e3 in
          let (plain, same_kind) =
            next-IsPlain fl g out round.draw actions l1.scheduler chosen d c in
          let k0 : Kept pm nm (record l { scheduler = asked }) = record {
            workers = k.workers;
            wait_group = k.wait_group;
            clients = k.clients;
            going = k.going;
            network = k.network;
            strategy = get_client_request-kind fl g l.scheduler asked sc a ∙ k.strategy;
          } in
          let k1 = request-Kept sc (record l { scheduler = asked }) l1 (rw calm.1 at b) k0 in
          let k1' : Kept pm nm (record l1 { scheduler = chosen }) = record {
            workers = k1.workers;
            wait_group = k1.wait_group;
            clients = k1.clients;
            going = k1.going;
            network = k1.network;
            strategy = same_kind ∙ k1.strategy;
          } in
          execute_as-Kept d.decision_type round.launched actions d.index l2 l' plain e4 (
            happen_all-Kept frames round.meanwhile (record l1 { scheduler = chosen }) l2 calm.0.1 f
              k1')

      pub run_steps-Kept :
          (rounds : List (Round fl g)) (l l' : Loop fl g)
          → All IsCalm rounds
          → Kept pm nm l
          → run_steps fl g out frames decimal te rounds l ≡ ok l'
          → Kept pm nm l'
      run_steps-Kept rounds l l' calm k e =
          (run_steps-keeps fl g out frames decimal te IsCalm (Kept pm nm)
            (λ round m m' q p e'. happen_all-Kept frames round.before m m' q.0.0 e' p)
            (λ round m m' q p e'. run_round-Kept round m m' q p e') rounds l l' calm k e).0
