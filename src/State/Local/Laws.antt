-- ===== src/State/Local/Laws.antt =====
-- The state in memory answers as the interface demands.
use mrvacommander.Prelude.{
  ℤ, int_eq, int_beq, Bool, true, false, refl, [], ◌∷◌, ◌++◌, Option, some, ◌≡◌, lookup-insert,
  arith,
}
use mrvacommander.Common.Types.{JobSpec, job_spec_eq, NameWithOwner, Status}
use mrvacommander.Queue.Types.{AnalyzeJob, AnalyzeResult}
use mrvacommander.Common.Api.{JobInfo}
use mrvacommander.State.Laws.{StateLaws, Answers, written, SameLists, SameSpecs, SameSummaries}
use mrvacommander.State.Local.{
  LocalState, local_server_state, next_id, set_status, set_result, set_job_info, add_job,
  get_status, get_result, get_job_info, get_job_list, get_job_spec_by_repo_id, get_session_status,
  jobs_of,
}

module _ (repo_id : NameWithOwner → ℤ) where
  pub local_set_status :
      (s s' : LocalState) (js : JobSpec) (x : Status)
      → some (set_status s js x) ≡ some s'
      → Answers
          (local_server_state repo_id)
          s'
          (written (get_status s) js x)
          (get_result s)
          (get_job_info s)
  unfolding set_status get_status get_result get_job_info
  local_set_status s s' js x e = record {
    get_status = λ j. ground (arith, lookup-insert js j x s.status);
    get_result = λ j. ground arith;
    get_job_info = λ j. ground arith;
  }

  pub local_set_result :
      (s s' : LocalState) (js : JobSpec) (x : AnalyzeResult)
      → x.spec ≡ js
      → some (set_result s js x) ≡ some s'
      → (q : AnalyzeResult) × (◌≡◌ {A = Bool} true true → q ≡ x)
        × Answers
            (local_server_state repo_id)
            s'
            (get_status s)
            (written (get_result s) js q)
            (get_job_info s)
  unfolding set_result get_status get_result get_job_info
  local_set_result s s' js x named e = (
    x,
    λ _. refl,
    record {
      get_status = λ j. ground arith;
      get_result = λ j. ground (arith, lookup-insert js j x s.result);
      get_job_info = λ j. ground arith;
    },
  )

  pub local_set_job_info :
      (s s' : LocalState) (js : JobSpec) (x : JobInfo)
      → some (set_job_info s js x) ≡ some s'
      → (q : JobInfo) × (◌≡◌ {A = Bool} true true → q ≡ x)
        × Answers
            (local_server_state repo_id)
            s'
            (get_status s)
            (get_result s)
            (written (get_job_info s) js q)
  unfolding set_job_info get_status get_result get_job_info
  local_set_job_info s s' js x e = (
    x,
    λ _. refl,
    record {
      get_status = λ j. ground arith;
      get_result = λ j. ground arith;
      get_job_info = λ j. ground (arith, lookup-insert js j x s.info);
    },
  )

  pub local_add_job :
      (s s' : LocalState) (job : AnalyzeJob)
      → add_job s job ≡ some s'
      → Answers (local_server_state repo_id) s' (get_status s) (get_result s) (get_job_info s)
  unfolding add_job get_status get_result get_job_info
  local_add_job s s' job e = record {
    get_status = λ j. ground arith;
    get_result = λ j. ground arith;
    get_job_info = λ j. ground arith;
  }

  pub local_next_id :
      (s s' : LocalState) (id : ℤ)
      → some (next_id s) ≡ some (s', id)
      → Answers (local_server_state repo_id) s' (get_status s) (get_result s) (get_job_info s)
  unfolding next_id get_status get_result get_job_info
  local_next_id s s' id e = record {
    get_status = λ j. ground arith;
    get_result = λ j. ground arith;
    get_job_info = λ j. ground arith;
  }

  pub local_get_repo_id :
      (s s' : LocalState) (nwo : NameWithOwner) (id : ℤ)
      → ◌≡◌ {A = Option (LocalState × ℤ)} (some (s, repo_id nwo)) (some (s', id))
      → Answers (local_server_state repo_id) s' (get_status s) (get_result s) (get_job_info s)
  unfolding get_status get_result get_job_info
  local_get_repo_id s s' nwo id e = record {
    get_status = λ j. ground arith;
    get_result = λ j. ground arith;
    get_job_info = λ j. ground arith;
  }

  -- The methods that leave the job tables, or the statuses, as they were.
  same_jobs :
      (s s' : LocalState)
      → s'.jobs ≡ s.jobs
      → s'.session_to_job_id_to_spec ≡ s.session_to_job_id_to_spec
      → SameLists (local_server_state repo_id) s s' × SameSpecs (local_server_state repo_id) s s'
  unfolding get_job_list get_job_spec_by_repo_id
  same_jobs s s' p q = (λ id. rw p refl, λ session_id id. rw q refl)

  same_statuses :
      (s s' : LocalState) → s'.status ≡ s.status → SameSummaries (local_server_state repo_id) s s'
  unfolding get_session_status
  same_statuses s s' p id = rw p refl

  pub local_set_status_keeps :
      (s s' : LocalState) (js : JobSpec) (x : Status)
      → some (set_status s js x) ≡ some s'
      → SameLists (local_server_state repo_id) s s' × SameSpecs (local_server_state repo_id) s s'
  unfolding set_status
  local_set_status_keeps s s' js x e = same_jobs s s' (ground arith) (ground arith)

  pub local_set_result_keeps :
      (s s' : LocalState) (js : JobSpec) (x : AnalyzeResult)
      → some (set_result s js x) ≡ some s'
      → SameLists (local_server_state repo_id) s s'
        × SameSpecs (local_server_state repo_id) s s'
        × SameSummaries (local_server_state repo_id) s s'
  unfolding set_result
  local_set_result_keeps s s' js x e =
      let (p, q) = same_jobs s s' (ground arith) (ground arith) in
      (p, q, same_statuses s s' (ground arith))

  pub local_set_job_info_keeps :
      (s s' : LocalState) (js : JobSpec) (x : JobInfo)
      → some (set_job_info s js x) ≡ some s'
      → SameLists (local_server_state repo_id) s s'
        × SameSpecs (local_server_state repo_id) s s'
        × SameSummaries (local_server_state repo_id) s s'
  unfolding set_job_info
  local_set_job_info_keeps s s' js x e =
      let (p, q) = same_jobs s s' (ground arith) (ground arith) in
      (p, q, same_statuses s s' (ground arith))

  pub local_add_job_keeps :
      (s s' : LocalState) (job : AnalyzeJob)
      → add_job s job ≡ some s'
      → SameSummaries (local_server_state repo_id) s s'
        × ((id : ℤ)
            → int_beq job.spec.session_id id ≡ false
            → get_job_list s' id ≡ get_job_list s id)
  unfolding add_job get_job_list
  local_add_job_keeps s s' job e = (
    same_statuses s s' (ground arith),
    λ id other. ground (
      arith,
      lookup-insert job.spec.session_id id (jobs_of s job.spec.session_id ++ job ∷ []) s.jobs,
    ),
  )

  pub local_next_id_keeps :
      (s s' : LocalState) (id : ℤ)
      → some (next_id s) ≡ some (s', id)
      → SameSpecs (local_server_state repo_id) s s'
        × SameSummaries (local_server_state repo_id) s s'
  unfolding next_id get_job_spec_by_repo_id
  local_next_id_keeps s s' id e = (λ session_id n. ground arith, same_statuses s s' (ground arith))

  pub local_get_repo_id_keeps :
      (s s' : LocalState) (nwo : NameWithOwner) (id : ℤ)
      → ◌≡◌ {A = Option (LocalState × ℤ)} (some (s, repo_id nwo)) (some (s', id))
      → SameLists (local_server_state repo_id) s s'
        × SameSummaries (local_server_state repo_id) s s'
  local_get_repo_id_keeps s s' nwo id e =
      let (p, q) = same_jobs s s' (ground arith) (ground arith) in
      (p, same_statuses s s' (ground arith))

  -- Whatever is stored is read back as it was.
  abbrev pub local_laws : StateLaws (local_server_state repo_id)
  local_laws = record {
    storable_result = λ _. true;
    storable_info = λ _. true;
    set_status_keeps = local_set_status_keeps;
    set_result_keeps = local_set_result_keeps;
    set_job_info_keeps = local_set_job_info_keeps;
    add_job_keeps = local_add_job_keeps;
    next_id_keeps = local_next_id_keeps;
    get_repo_id_keeps = local_get_repo_id_keeps;
    set_status = local_set_status;
    set_result = local_set_result;
    set_job_info = local_set_job_info;
    add_job = local_add_job;
    next_id = local_next_id;
    get_repo_id = local_get_repo_id;
  }
