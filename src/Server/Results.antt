-- ===== src/Server/Results.antt =====
-- pkg/server/server.go: the results consumer.
use mathlib.Core.Path.{subst}
use mathlib.Core.Option.{some-injective}
use mrvacommander.Prelude.{
  List, [], ◌∷◌, Option, some, ok, ◌≡◌, ◌==◌, refl, sym, ◌∙◌, ◌>>=◌, >>=-eq-some, Bool-cases, true,
  false, inl, inr, beq_refl, arith,
}
use mrvacommander.Common.Types.{JobSpec, job_spec_eq}
use mrvacommander.Queue.Types.{AnalyzeResult}
use mrvacommander.State.Interface.{ServerState}
use mrvacommander.State.Laws.{StateLaws, Answers, Delivered, written}
use mrvacommander.Server.Types.{Visibles, Commander}

-- The result is stored before the status that announces it.
unfoldable pub store_result : {S : Type 0} → ServerState S → S → AnalyzeResult → Option S
store_result st s r = do s' ← st.set_result s r.spec r; st.set_status s' r.spec r.status

-- One round of `ConsumeResults`. With no result in the channel the round waits.
unfoldable pub consume_result :
    {S A D : Type 0} → Visibles S A D → Commander S A D → Option (Commander S A D)
consume_result v c = elim c.queue.results [
  | [] ↦ some c
  | r ∷ rest ↦ do
    s ← store_result v.state c.state r
    some (record c { queue = record { jobs = c.queue.jobs; results = rest }; state = s })
]

-- Where the consumer stands in its round: it waits for a result, it has received one, or it has
-- stored one and has yet to announce it.
pub data Consumer : Type 0 where
  idle : Consumer
  holding announcing : AnalyzeResult → Consumer

-- One call of the round at a time.
unfoldable pub consume_step :
    {S A D : Type 0}
    → Visibles S A D
    → Commander S A D
    → Consumer
    → Option (Commander S A D × Consumer)
consume_step v c idle = elim c.queue.results [
  | [] ↦ some (c, idle)
  | r ∷ rest ↦ some (record c { queue = record { jobs = c.queue.jobs; results = rest } }, holding r)
]
consume_step v c (holding r) = do
  s ← v.state.set_result c.state r.spec r
  some (record c { state = s }, announcing r)
consume_step v c (announcing r) = do
  s ← v.state.set_status c.state r.spec r.status
  some (record c { state = s }, idle)

module _ {S : Type 0} (st : ServerState S) (laws : StateLaws st) where
  -- The two writes, taken apart.
  pub store_result-steps :
      (s s' : S) (r : AnalyzeResult)
      → store_result st s r ≡ some s'
      → (m : S) × (st.set_result s r.spec r ≡ some m) × (st.set_status m r.spec r.status ≡ some s')
  unfolding store_result
  store_result-steps s s' r e = >>=-eq-some (st.set_result s r.spec r) _ e

  -- Storing a result makes it, and its status, the answer for its job; every other job keeps its
  -- answers.
  pub store_result-Answers :
      (s s' : S) (r : AnalyzeResult)
      → store_result st s r ≡ some s'
      → (q : AnalyzeResult) × (laws.storable_result r ≡ true → q ≡ r)
        × Answers st s'
            (written (st.get_status s) r.spec r.status)
            (written (st.get_result s) r.spec q)
            (st.get_job_info s)
  store_result-Answers s s' r e =
      let (m, first, second) = store_result-steps s s' r e in
      let (q, kept, a) = laws.set_result s m r.spec r refl first in
      let b = laws.set_status m s' r.spec r.status second in
      (
        q,
        kept,
        record {
          get_status = λ j. ground (arith, a.get_status j, b.get_status j);
          get_result = λ j. b.get_result j ∙ a.get_result j;
          get_job_info = λ j. b.get_job_info j ∙ a.get_job_info j;
        },
      )

  -- No job is ever reported as succeeded before its result can be read.
  pub store_result-Delivered :
      (s s' : S) (r : AnalyzeResult)
      → store_result st s r ≡ some s'
      → Delivered st s
      → Delivered st s'
  store_result-Delivered s s' r e d =
      let (q, kept, a) = store_result-Answers s s' r e in
      record {
        has_result = λ j now. elim (Bool-cases (r.spec == j)) [
          | inl same ↦ (q, ground (arith, a.get_result j))
          | inr other ↦
              let (p, got) = d.has_result j (rw other at (sym (a.get_status j) ∙ now)) in
              (p, ground (arith, a.get_result j, got))
        ];
      }

-- What a round of the consumer makes of a commander.
pub record Consumed {S A D : Type 0} (v : Visibles S A D) (laws : StateLaws v.state)
    (c : Commander S A D) (r : AnalyzeResult) (rest : List AnalyzeResult) (c' : Commander S A D)
    : Type 0 where
  pub taken : c'.queue.results ≡ rest
  pub jobs_kept : c'.queue.jobs ≡ c.queue.jobs
  pub artifacts_kept : c'.artifacts ≡ c.artifacts
  pub status_stored : v.state.get_status c'.state r.spec ≡ ok r.status
  pub readable : (q : AnalyzeResult) × (v.state.get_result c'.state r.spec ≡ ok q)
  pub result_stored : laws.storable_result r ≡ true → v.state.get_result c'.state r.spec ≡ ok r
  pub others_kept :
      (j : JobSpec)
      → (r.spec == j) ≡ false
      → (v.state.get_status c'.state j ≡ v.state.get_status c.state j)
        × (v.state.get_result c'.state j ≡ v.state.get_result c.state j)
  pub delivered : Delivered v.state c'.state

-- For a state that keeps the laws and in which every reported success has a result: a round of the
-- consumer that does not panic takes the oldest result out of the channel and stores it with its
-- status, as it is where the state can store it so; every other job keeps its answers, and every
-- reported success still has a result.
pub consume_result-Consumed :
    {S A D : Type 0} (v : Visibles S A D) (laws : StateLaws v.state) (c c' : Commander S A D)
    (r : AnalyzeResult) (rest : List AnalyzeResult)
    → c.queue.results ≡ r ∷ rest
    → Delivered v.state c.state
    → consume_result v c ≡ some c'
    → Consumed v laws c r rest c'
unfolding consume_result
consume_result-Consumed v laws c c' r rest e d run =
    let (s, stored, same) = >>=-eq-some (store_result v.state c.state r) _ (rw e at run) in
    let (q, kept, a) = store_result-Answers v.state laws c.state s r stored in
    let self = beq_refl r.spec in
    subst (Consumed v laws c r rest) (some-injective _ _ same) (record {
      taken = refl;
      jobs_kept = refl;
      artifacts_kept = refl;
      status_stored = a.get_status r.spec ∙ rw self;
      readable = (q, a.get_result r.spec ∙ rw self);
      result_stored = λ fine. a.get_result r.spec ∙ rw (self, kept fine);
      others_kept = λ j other. (a.get_status j ∙ rw other, a.get_result j ∙ rw other);
      delivered = store_result-Delivered v.state laws c.state s r stored d;
    })
