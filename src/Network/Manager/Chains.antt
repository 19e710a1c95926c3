-- ===== src/Network/Manager/Chains.antt =====
-- `UpdateChainClocks`: chains in which each event starts where the one before it ended.
use dstest.Prelude.{
  ℕ, ◌+◌, ◌≡◌, refl, List, [], ◌∷◌, ◌++◌, ℤ, eq_ℤ, eq_ℤ_iff, length, length-append, All, Returns,
  Returns-map, Returns-bind, Bool-cases, inl, inr, arith, sym,
}
use dstest.Prelude.Text.{Text}
use dstest.Network.Manager.{
  Manager, EventFields, Event, root, after, fields, last_event, extend_chains, update_chain_clocks,
}

-- Each event of the list continues the one before it, the first one `e`.
abbrev pub Follows : Event → List Event → Type 0
Follows e [] = Unit
Follows e (next ∷ rest) =
    (next ≡ after e (fields next))
    × ((fields next).sender ≡ (fields e).receiver)
    × Follows next rest

abbrev pub IsChain : List Event → Type 0
IsChain [] = ⊥
IsChain (e ∷ rest) = (e ≡ root (fields e)) × Follows e rest

abbrev pub events : List (List Event) → ℕ
events [] = 0
events (chain ∷ chains) = length chain + events chains

-- The last event of a non-empty list can be continued.
append-Follows :
    (e : Event) (rest : List Event) (f : EventFields)
    → Follows e rest
    → Returns
        (last_event (e ∷ rest))
        λ last. f.sender ≡ (fields last).receiver → Follows e (rest ++ after last f ∷ [])
unfolding last_event
append-Follows e [] f h = λ joins. (refl, joins, tt)
append-Follows e (next ∷ rest) f h =
    Returns-map _
      (λ last. f.sender ≡ (fields last).receiver → Follows next (rest ++ after last f ∷ [])) _
      (append-Follows next rest f h.2) (λ last follows joins. (h.0, h.1, follows joins))

-- The chains stay chains, and hold one event more.
abbrev pub Extended : List (List Event) → List (List Event) → Type 0
Extended chains chains' = All IsChain chains' × (events chains' ≡ events chains + 1)

extend_chains-Returns :
    (f : EventFields) (chains : List (List Event))
    → All IsChain chains
    → Returns (extend_chains f chains) (Extended chains)
unfolding extend_chains
extend_chains-Returns f [] h = (((refl, tt), tt), omega arith)
extend_chains-Returns f ([] ∷ chains) h = absurd h.0
extend_chains-Returns f ((e ∷ rest) ∷ chains) h =
    Returns-bind _ _
      (λ last. f.sender ≡ (fields last).receiver → Follows e (rest ++ after last f ∷ [])) _
      (append-Follows e rest f h.0.1)
      λ last follows. elim (Bool-cases (eq_ℤ (fields last).receiver f.sender)) [
        | inl joins ↦ rw joins (
          ((h.0.0, follows (sym ((eq_ℤ_iff (fields last).receiver f.sender).0 joins))), h.1),
          omega (arith, length-append {0} rest (after last f ∷ [])),
        )
        | inr apart ↦ rw apart (
            Returns-bind _ _ (Extended chains) _ (extend_chains-Returns f chains h.1)
              (λ chains' (all, count). ((h.0, all), omega (arith, count))))
      ]

-- From linked chains an update returns: every chain is linked again, each event starting where the one
-- before it ended, and the chains hold one event more.
update_chain_clocks-Returns :
    (nm : Manager) (sender receiver : ℤ) (message_id : ℕ) (name : Text)
    → All IsChain nm.chain_clocks
    → Returns
        (update_chain_clocks nm sender receiver message_id name)
        λ nm'. Extended nm.chain_clocks nm'.chain_clocks
unfolding update_chain_clocks
update_chain_clocks-Returns nm sender receiver message_id name h =
    Returns-bind _ _ (Extended nm.chain_clocks) _ (extend_chains-Returns _ nm.chain_clocks h)
      (λ chains e. e)
