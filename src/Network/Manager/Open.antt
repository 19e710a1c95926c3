-- ===== src/Network/Manager/Open.antt =====
-- A manager right after `Init`: the router lets every request through.
use native.Mathlib.Nat.{mod-lt}
use dstest.Prelude.{
  ℕ, ◌-◌, ◌/◌, ◌%◌, ◌==◌, ◌≡◌, ◌<◌, ◌∙◌, refl, find, true, not, ◌&&◌, Option, none, some, inl, inr,
  ltb, if-eq, Option-cases, arith,
}
use dstest.Prelude.Text.{Text}
use dstest.Network.Manager.{Manager, SenderReceiverPair, pair_of}
use dstest.Network.Manager.Ports.{pair, port_pair}
use dstest.Network.Manager.Queueing.{passes}
use dstest.Network.Manager.Init.{IsReady}

-- The pair of a port is a pair of nodes.
port_pair_inside :
    (base n port : ℕ) (p : SenderReceiverPair)
    → 0 < n
    → port_pair base n port ≡ some p
    → (p.sender < n) × (p.receiver < n)
port_pair_inside base n port p some_node e = elim (if-eq (ltb port base) _ _ _ e) [
  | inl (below, nothing) ↦ cc
  | inr (above, at_offset) ↦
      let q = port - base in
      let small = mod-lt q some_node in
      elim (if-eq (ltb (q / n) n && not (q / n == q % n)) _ _ _ at_offset) [
        | inr (outside, nothing) ↦ cc
        | inl (inside, here) ↦
            let same : pair (q / n) (q % n) ≡ p = cc in rw (← same) (ground (arith, inside), small)
      ]
]

pair_of-some :
    (nm : Manager) (port : ℕ) (p : SenderReceiverPair)
    → find port nm.port_map ≡ some p
    → pair_of nm port ≡ p
unfolding pair_of
pair_of-some nm port p e = rw (pair_of, e) refl

pair_of-none : (nm : Manager) (port : ℕ) → find port nm.port_map ≡ none → pair_of nm port ≡ pair 0 0
unfolding pair_of
pair_of-none nm port e = rw (pair_of, e) refl

-- Also at a port of no pair, which stands for node 0 and itself.
pub passes-open :
    (base n : ℕ) (nm : Manager) (result : Manager × Option Text)
    → 0 < n
    → IsReady base n nm result
    → (port : ℕ) → passes n result.0 (pair_of result.0 port) ≡ true
passes-open base n nm result some_node ready port = elim (Option-cases (port_pair base n port)) [
  | inl no_pair ↦
      rw (pair_of-none result.0 port (ready.ports port ∙ no_pair))
        (ground (arith, ready.connected.cells 0 0 some_node some_node))
  | inr (p, found) ↦
      let (ls, lr) = port_pair_inside base n port p some_node found in
      rw (pair_of-some result.0 port p (ready.ports port ∙ found))
        (ground (arith, ready.connected.cells p.sender p.receiver ls lr))
]
