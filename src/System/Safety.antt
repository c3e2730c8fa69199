-- ===== src/System/Safety.antt =====
-- What holds in every interleaving.
use mathlib.Core.Path.{subst}
use mathlib.Core.Option.{some-injective}
use mrvacommander.Prelude.{
  ℤ, Bytes, List, [], ◌∷◌, map, Option, none, some, ok, ◌≡◌, ◌≢◌, ◌==◌, inl, inr, refl, sym, ◌∙◌,
  >>=-eq-some, Option-cases, Bool-cases, beq_refl, arith,
}
use mrvacommander.Common.Types.{
  JobSpec, job_spec_eq, job_spec_beq_iff, NameWithOwner, Status, status_pending, status_in_progress,
  status_succeeded,
}
use mrvacommander.Common.Errors.{Fallible}
use mrvacommander.Common.Api.{JobInfo}
use mrvacommander.ArtifactStore.Types.{ArtifactLocation}
use mrvacommander.Queue.Types.{AnalyzeJob, AnalyzeResult}
use mrvacommander.State.Laws.{
  StateLaws, Answers, Delivered, Answers-Delivered, set_status-Delivered,
}
use mrvacommander.Server.Types.{Visibles, Commander}
use mrvacommander.Server.Results.{Consumer, idle, holding, announcing, consume_step}
use mrvacommander.Server.Submit.{job_for, start_analysis, start_analyses}
use mrvacommander.Agent.Job.{Machine}
use mrvacommander.Agent.Worker.{Task, taken, marked, finished, work_step}
use mrvacommander.System.{
  Action, send, mark, add, program, System, perform, perform_all, Step, server, takes, works,
  consumes, Steps, here, next,
}

module _ {S A D : Type 0} (v : Visibles S A D) where
  perform_all-step :
      (c : Commander S A D) (job : AnalyzeJob) (actions : List Action)
      → perform_all v (send job ∷ mark job ∷ add job ∷ actions) c
        ≡ elim (start_analysis v c job) [ none ↦ none | some c' ↦ perform_all v actions c' ]
  unfolding perform_all perform start_analysis
  perform_all-step c job actions =
      elim (Option-cases (v.state.set_status c.state job.spec status_pending)) [
        | inl e ↦ ground (arith, e)
        | inr (s, e) ↦ ground (arith, e)
      ]

  -- With no other step in between, the server's actions are the loop of `startAnalyses`.
  pub perform_all-program :
      (c : Commander S A D) (repos : List NameWithOwner) (location : ArtifactLocation) (id : ℤ)
      (language : Bytes)
      → perform_all v (program (map (job_for location id language) repos)) c
        ≡ start_analyses v c repos location id language
  unfolding program start_analyses
  perform_all-program c [] location id language = unfold perform_all in refl
  perform_all-program c (nwo ∷ repos) location id language =
      perform_all-step c (job_for location id language nwo) _
      ∙ (elim (Option-cases (start_analysis v c (job_for location id language nwo))) [
        | inl e ↦ rw (e, start_analyses)
        | inr (m, e) ↦ rw (e, start_analyses) (perform_all-program m repos location id language)
      ])

  -- Before it announces a result, the consumer has made it readable.
  abbrev pub Announced : S → Consumer → Type 0
  Announced s idle = Unit
  Announced s (holding r) = Unit
  Announced s (announcing r) = (q : AnalyzeResult) × (v.state.get_result s r.spec ≡ ok q)

  Announced-Answers :
      (s s' : S) (status : JobSpec → Fallible Status) (info : JobSpec → Fallible JobInfo)
      (k : Consumer)
      → Answers v.state s' status (v.state.get_result s) info
      → Announced s k
      → Announced s' k
  Announced-Answers s s' status info idle a h = tt
  Announced-Answers s s' status info (holding r) a h = tt
  Announced-Answers s s' status info (announcing r) a (q, got) = (q, a.get_result r.spec ∙ got)

  -- What holds at every time.
  abbrev pub Safe : S → Consumer → Type 0
  Safe s k = Delivered v.state s × Announced s k

  module _ (laws : StateLaws v.state) where
    -- A status other than that of a success may be written at any time.
    mark-Safe :
        (s s' : S) (js : JobSpec) (x : Status) (k : Consumer)
        → x ≢ status_succeeded
        → v.state.set_status s js x ≡ some s'
        → Safe s k
        → Safe s' k
    mark-Safe s s' js x k other e (d, h) = (
      set_status-Delivered v.state laws s s' js x other e d,
      Announced-Answers s s' _ _ k (laws.set_status s s' js x e) h,
    )

    perform-Safe :
        (a : Action) (c c' : Commander S A D) (k : Consumer)
        → perform v a c ≡ some c'
        → Safe c.state k
        → Safe c'.state k
    unfolding perform
    perform-Safe (send job) c c' k e d =
        subst (λ (x : Commander S A D). Safe x.state k) (some-injective _ _ e) d
    perform-Safe (mark job) c c' k e d =
        let (s, marked', same) =
          >>=-eq-some (v.state.set_status c.state job.spec status_pending) _ e in
        subst (λ (x : Commander S A D). Safe x.state k) (some-injective _ _ same)
          (mark-Safe c.state s job.spec status_pending k (λ x. ground arith) marked' d)
    perform-Safe (add job) c c' k e (d, h) =
        let (s, added, same) = >>=-eq-some (v.state.add_job c.state job) _ e in
        let a = laws.add_job c.state s job added in
        subst (λ (x : Commander S A D). Safe x.state k) (some-injective _ _ same)
          (Answers-Delivered v.state c.state s _ a d, Announced-Answers c.state s _ _ k a h)

    work_step-Safe :
        (machine : Machine) (task : Task) (c c' : Commander S A D) (left : Option Task)
        (k : Consumer)
        → work_step v machine c task ≡ some (c', left)
        → Safe c.state k
        → Safe c'.state k
    unfolding work_step
    work_step-Safe machine (taken job) c c' left k e d =
        let (s, marked', same) =
          >>=-eq-some (v.state.set_status c.state job.spec status_in_progress) _ e in
        subst (λ (x : Commander S A D × Option Task). Safe x.0.state k) (some-injective _ _ same)
          (mark-Safe c.state s job.spec status_in_progress k (λ x. ground arith) marked' d)
    work_step-Safe machine (marked job) c c' left k e d =
        subst (λ (x : Commander S A D × Option Task). Safe x.0.state k) (some-injective _ _ e) d
    work_step-Safe machine (finished x r) c c' left k e d =
        subst (λ (x : Commander S A D × Option Task). Safe x.0.state k) (some-injective _ _ e) d

    -- A success is announced only once its result can be read.
    announce-Safe :
        (s s' : S) (r : AnalyzeResult)
        → v.state.set_status s r.spec r.status ≡ some s'
        → Safe s (announcing r)
        → Safe s' idle
    announce-Safe s s' r e (d, (q, got)) =
        let a = laws.set_status s s' r.spec r.status e in
        (
          record {
            has_result = λ j now. elim (Bool-cases (r.spec == j)) [
              | inl same ↦ (q, a.get_result j ∙ rw ((job_spec_beq_iff r.spec j).0 same) at got)
              | inr other ↦
                  let (p, read) = d.has_result j (rw other at (sym (a.get_status j) ∙ now)) in
                  (p, a.get_result j ∙ read)
            ];
          },
          tt,
        )

    store-Safe :
        (s s' : S) (r : AnalyzeResult)
        → v.state.set_result s r.spec r ≡ some s'
        → Safe s (holding r)
        → Safe s' (announcing r)
    store-Safe s s' r e (d, h) =
        let (q, kept, a) = laws.set_result s s' r.spec r refl e in
        (
          record {
            has_result = λ j now. elim (Bool-cases (r.spec == j)) [
              | inl same ↦ (q, a.get_result j ∙ rw same refl)
              | inr other ↦
                  let (p, read) = d.has_result j (sym (a.get_status j) ∙ now) in
                  (p, a.get_result j ∙ rw other read)
            ];
          },
          (q, a.get_result r.spec ∙ rw (beq_refl r.spec) refl),
        )

    consume_step-Safe :
        (c c' : Commander S A D) (k k' : Consumer) (results : List AnalyzeResult)
        → c.queue.results ≡ results
        → consume_step v c k ≡ some (c', k')
        → Safe c.state k
        → Safe c'.state k'
    unfolding consume_step
    consume_step-Safe c c' idle k' [] none' e d =
        subst (λ (x : Commander S A D × Consumer). Safe x.0.state x.1)
          (some-injective _ _ (rw none' at e)) d
    consume_step-Safe c c' idle k' (r ∷ rest) next' e d =
        subst (λ (x : Commander S A D × Consumer). Safe x.0.state x.1)
          (some-injective _ _ (rw next' at e)) d
    consume_step-Safe c c' (holding r) k' results h e d =
        let (s, done, same) = >>=-eq-some (v.state.set_result c.state r.spec r) _ e in
        subst (λ (x : Commander S A D × Consumer). Safe x.0.state x.1) (some-injective _ _ same)
          (store-Safe c.state s r done d)
    consume_step-Safe c c' (announcing r) k' results h e d =
        let (s, done, same) = >>=-eq-some (v.state.set_status c.state r.spec r.status) _ e in
        subst (λ (x : Commander S A D × Consumer). Safe x.0.state x.1) (some-injective _ _ same)
          (announce-Safe c.state s r done d)

    Step-Safe :
        {s t : System S A D}
        → Step v s t
        → Safe s.commander.state s.consumer
        → Safe t.commander.state t.consumer
    Step-Safe {s} (server a actions c _ e same) d =
        rw same (perform-Safe a s.commander c s.consumer e d)
    Step-Safe {s} (takes job rest _ same) d = rw same d
    Step-Safe {s} (works machine before after task c left _ e same) d =
        rw same (work_step-Safe machine task s.commander c left s.consumer e d)
    Step-Safe {s} (consumes c k e same) d =
        rw same (consume_step-Safe s.commander c s.consumer k s.commander.queue.results refl e d)

    -- However the calls of the server, the workers and the consumer interleave, and whatever the
    -- analyses come to: if at the start every job that is reported as succeeded has a result that
    -- can be read, and so has the job whose status the consumer is about to set, then it is so at
    -- every later time.
    pub Steps-Delivered :
        {s t : System S A D}
        → Steps v s t
        → Safe s.commander.state s.consumer
        → Safe t.commander.state t.consumer
    Steps-Delivered here d = d
    Steps-Delivered (next steps step) d = Step-Safe step (Steps-Delivered steps d)
