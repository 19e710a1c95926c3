-- ===== src/Scheduling/Ql/Hashing.antt =====
-- `StateHash` of cmd/dstest/scheduling/QLScheduler.go: one number for a list of messages. `Marshal` of
-- encoding/json and the hashes of fasthash are parameters.
use Prim.Native.Nat.{bit_xor}
use dstest.Prelude.{
  ℕ, ◌≡◌, refl, ap, List, [], ◌∷◌, Option, none, some, Outcome, ok, panic, index_out_of_range,
  length, map, arith,
}
use dstest.Network.Message.{Message}

-- The bytes that `json.Marshal` gives: nil with an error, which nothing looks at.
abbrev pub marshalled : (Message → Option (List ℕ)) → Message → List ℕ
marshalled marshal m = elim (marshal m) [ none ↦ [] | some json ↦ json ]

module _ (marshal : Message → Option (List ℕ)) (hash_bytes : List ℕ → ℕ) (hash_uint32 : ℕ → ℕ) where
  unfoldable pub hashes : List Message → List ℕ
  hashes messages = map (λ m. hash_bytes (marshalled marshal m)) messages

  -- The loop over the hashes behind the first.
  unfoldable pub combine : ℕ → List ℕ → ℕ
  combine final_hash [] = final_hash
  combine final_hash (h ∷ rest) = combine (hash_uint32 (bit_xor final_hash h)) rest

  unfoldable pub from_hashes : List ℕ → Outcome ℕ
  from_hashes [] = panic index_out_of_range
  from_hashes (h ∷ rest) = ok (combine (hash_uint32 h) rest)

  unfoldable pub state_hash : List Message → Outcome ℕ
  state_hash messages = from_hashes (hashes messages)

  -- A value with a channel in an exported field is an error of `Marshal`, and a message is one.
  abbrev pub HasNoJson : Type 0
  HasNoJson = (m : Message) → marshal m ≡ none

  hash_none : HasNoJson → (m : Message) → hash_bytes (marshalled marshal m) ≡ hash_bytes []
  hash_none none_has m = rw (marshalled, none_has m) refl

  hashes_same : HasNoJson → (l l' : List Message) → length l ≡ length l' → hashes l ≡ hashes l'
  unfolding hashes
  hashes_same none_has [] [] e = refl
  hashes_same none_has [] (m' ∷ l') e = absurd (omega arith)
  hashes_same none_has (m ∷ l) [] e = absurd (omega arith)
  hashes_same none_has (m ∷ l) (m' ∷ l') e =
      let first = hash_none none_has m in
      let first' = hash_none none_has m' in let rest = hashes_same none_has l l' (omega arith) in cc

  -- The hash of a state depends on the number of its messages alone: two lists of one length have
  -- the same hash, whatever the messages are. It panics on no message.
  pub state_hash_same :
      HasNoJson
      → (l l' : List Message) → length l ≡ length l'
      → (state_hash l ≡ state_hash l') × (state_hash [] ≡ panic index_out_of_range)
  unfolding state_hash from_hashes hashes
  state_hash_same none_has l l' e = (ap from_hashes (hashes_same none_has l l' e), refl)
