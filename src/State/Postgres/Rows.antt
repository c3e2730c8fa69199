-- ===== src/State/Postgres/Rows.antt =====
-- Rows in the order of a job list, and the jobs that they decode to.
use mathlib.Core.Path.{subst, sym}
use mathlib.Core.List.{Perm}
use mathlib.Core.List.Perm
use mrvacommander.Prelude.{
  Bool, List, [], ◌∷◌, ◌++◌, Map, ok, ◌≡◌, Result-cases, Bool-cases, inl, inr, arith,
}
use mrvacommander.Common.Types.{JobSpec, job_spec_eq, NameWithOwner}
use mrvacommander.Common.Errors.{Fallible}
use mrvacommander.Queue.Types.{AnalyzeJob}
use mrvacommander.State.Postgres.{Database}
use mrvacommander.State.Postgres.Reads.{decode_jobs, order_rows, insert_row, values}

module _ {J : Type 0} (db : Database J) where
  -- The jobs of rows.
  abbrev decoded_rows : Map JobSpec J → Fallible (List AnalyzeJob)
  decoded_rows rows = decode_jobs db (values rows)

  decode_cons :
      (js : JobSpec) (doc : J) (rows : Map JobSpec J) (jobs : List AnalyzeJob)
      → decoded_rows ((js, doc) ∷ rows) ≡ ok jobs
      → (job : AnalyzeJob) × (rest : List AnalyzeJob) × (db.unmarshal_job doc ≡ ok job)
        × (decoded_rows rows ≡ ok rest)
        × (jobs ≡ job ∷ rest)
  unfolding decode_jobs values
  decode_cons js doc rows jobs e = elim (Result-cases (db.unmarshal_job doc)) [
    | inr (x, bad) ↦ absurd (ground arith)
    | inl (job, good) ↦ elim (Result-cases (decoded_rows rows)) [
      | inr (x, bad) ↦ absurd (ground arith)
      | inl (rest, others) ↦ (job, rest, good, others, ground arith)
    ]
  ]

  decode_cons_back :
      (js : JobSpec) (doc : J) (rows : Map JobSpec J) (job : AnalyzeJob) (rest : List AnalyzeJob)
      → db.unmarshal_job doc ≡ ok job
      → decoded_rows rows ≡ ok rest
      → decoded_rows ((js, doc) ∷ rows) ≡ ok (job ∷ rest)
  unfolding decode_jobs values
  decode_cons_back js doc rows job rest good others = ground arith

  -- A row put in its place adds its job, wherever that is.
  abbrev Adds : Map JobSpec J → AnalyzeJob → List AnalyzeJob → Type 0
  Adds rows job jobs =
      (jobs' : List AnalyzeJob) × (decoded_rows rows ≡ ok jobs') × Perm jobs' (job ∷ jobs)

  insert_row-Adds :
      (before : NameWithOwner → NameWithOwner → Bool) (js : JobSpec) (doc : J) (job : AnalyzeJob)
      → db.unmarshal_job doc ≡ ok job
      → (rows : Map JobSpec J) (jobs : List AnalyzeJob) → decoded_rows rows ≡ ok jobs
      → Adds (insert_row before (js, doc) rows) job jobs
  unfolding insert_row
  insert_row-Adds before js doc job good [] jobs e =
      (job ∷ jobs, decode_cons_back js doc [] job jobs good e, Perm.refl _)
  insert_row-Adds before js doc job good ((k, w) ∷ rows) jobs e =
      let (first, rest, here, others, split) = decode_cons k w rows jobs e in
      let (jobs', there, p) = insert_row-Adds before js doc job good rows rest others in
      elim (Bool-cases (before k.name_with_owner js.name_with_owner)) [
        | inl after ↦ (
          first ∷ jobs',
          rw after (decode_cons_back k w (insert_row before (js, doc) rows) first jobs' here there),
          subst (λ (l : List AnalyzeJob). Perm (first ∷ jobs') (job ∷ l)) (sym split)
              (Perm.trans (Perm.cons first p) (Perm.swap job first rest)),
        )
        | inr not_after ↦ (
          job ∷ jobs,
          rw not_after (decode_cons_back js doc ((k, w) ∷ rows) job jobs good e),
          Perm.refl _,
        )
      ]

  -- The job that a row put in its place has added is one that its document decodes to.
  insert_row-Adds_back :
      (before : NameWithOwner → NameWithOwner → Bool) (js : JobSpec) (doc : J)
      (rows : Map JobSpec J) (jobs : List AnalyzeJob)
      → decoded_rows (insert_row before (js, doc) rows) ≡ ok jobs
      → (job : AnalyzeJob) × (rest : List AnalyzeJob) × (db.unmarshal_job doc ≡ ok job)
        × (decoded_rows rows ≡ ok rest)
        × Perm jobs (job ∷ rest)
  unfolding insert_row
  insert_row-Adds_back before js doc [] jobs e =
      let (job, rest, good, others, split) = decode_cons js doc [] jobs e in
      (job, rest, good, others, subst (λ (l : List AnalyzeJob). Perm jobs l) split (Perm.refl jobs))
  insert_row-Adds_back before js doc ((k, w) ∷ rows) jobs e =
      elim (Bool-cases (before k.name_with_owner js.name_with_owner)) [
        | inl after ↦
            let (first, rest, here, others, split) =
              decode_cons k w (insert_row before (js, doc) rows) jobs (rw after at e) in
            let (job, rest', good, behind, p) =
              insert_row-Adds_back before js doc rows rest others in
            (
              job,
              first ∷ rest',
              good,
              decode_cons_back k w rows first rest' here behind,
              subst (λ (l : List AnalyzeJob). Perm l (job ∷ first ∷ rest')) (sym split)
                  (Perm.trans (Perm.cons first p) (Perm.swap job first rest')),
            )
        | inr not_after ↦
            let (job, rest, good, others, split) =
              decode_cons js doc ((k, w) ∷ rows) jobs (rw not_after at e) in
            (
              job,
              rest,
              good,
              others,
              subst (λ (l : List AnalyzeJob). Perm jobs l) split (Perm.refl jobs),
            )
      ]

  -- A row behind the others of a table adds its job to the ordered list.
  pub order_rows-Adds :
      (before : NameWithOwner → NameWithOwner → Bool) (js : JobSpec) (doc : J) (job : AnalyzeJob)
      → db.unmarshal_job doc ≡ ok job
      → (rows : Map JobSpec J) (jobs : List AnalyzeJob)
      → decoded_rows (order_rows before rows) ≡ ok jobs
      → Adds (order_rows before (rows ++ (js, doc) ∷ [])) job jobs
  unfolding order_rows
  order_rows-Adds before js doc job good [] jobs e =
      insert_row-Adds before js doc job good [] jobs e
  order_rows-Adds before js doc job good ((k, w) ∷ rows) jobs e =
      let (first, rest, here, others, p) =
        insert_row-Adds_back before k w (order_rows before rows) jobs e in
      let (jobs', there, q) = order_rows-Adds before js doc job good rows rest others in
      let (all, whole, r) = insert_row-Adds before k w first here _ jobs' there in
      (
        all,
        whole,
        Perm.trans r (
            Perm.trans (Perm.cons first q)
              (Perm.trans (Perm.swap job first rest) (Perm.cons job (Perm.symm p)))),
      )
