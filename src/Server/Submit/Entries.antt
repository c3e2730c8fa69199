-- ===== src/Server/Submit/Entries.antt =====
-- How the repositories of a submission are read.
use mrvacommander.Prelude.{
  ◌<◌, Bytes, List, [], ◌∷◌, ◌++◌, map, none, some, ◌≡◌, refl, ◌∙◌, ap, nat_beq, if◌then◌else◌,
  length, arith, All,
}
use mrvacommander.Prelude.Split.{split, NoSlash, split-NoSlash, split-append}
use mrvacommander.Common.Types.{NameWithOwner}
use mrvacommander.Server.Http.{ResponseWriter, http_error}
use mrvacommander.Server.Status.{full_name}
use mrvacommander.Server.Submit.Collect.{collect_repos, invalid_entry}

abbrev pub NoSlashes : NameWithOwner → Type 0
NoSlashes n = NoSlash n.owner × NoSlash n.repo

split-full_name :
    (n : NameWithOwner) → NoSlashes n → split b'/' (full_name n) ≡ n.owner ∷ n.repo ∷ []
split-full_name n h =
    split-append n.owner n.repo h.0 ∙ ap (λ t. n.owner ∷ t) (split-NoSlash n.repo h.1)

split-ne-nil : (s : Bytes) → 0 < length (split b'/' s)
unfolding split
split-ne-nil [] = omega arith
split-ne-nil (c ∷ s) = ground (arith, split-ne-nil s)

split-two_slashes :
    (owner repo rest : Bytes)
    → NoSlash owner
    → NoSlash repo
    → split b'/' (owner ++ b'/' ∷ (repo ++ b'/' ∷ rest)) ≡ owner ∷ repo ∷ split b'/' rest
split-two_slashes owner repo rest ho hr =
    split-append owner (repo ++ b'/' ∷ rest) ho ∙ ap (λ t. owner ∷ t) (split-append repo rest hr)

-- Repositories written as owner, slash and name are read back as they are, and nothing is
-- reported, if no owner and no name holds a slash.
pub collect_repos-full_name :
    (w : ResponseWriter) (repos : List NameWithOwner)
    → All NoSlashes repos
    → collect_repos w (map full_name repos) ≡ some (w, repos)
unfolding collect_repos
collect_repos-full_name w [] h = refl
collect_repos-full_name w (n ∷ repos) h =
    ground (arith, split-full_name n h.0, collect_repos-full_name w repos h.1)

-- An entry without a slash ends the request in a panic, wherever it stands.
pub collect_repos-NoSlash :
    (w : ResponseWriter) (before after : List Bytes) (entry : Bytes)
    → NoSlash entry
    → collect_repos w (before ++ entry ∷ after) ≡ none
unfolding collect_repos
collect_repos-NoSlash w [] after entry h = ground (arith, split-NoSlash entry h)
collect_repos-NoSlash w (b ∷ before) after entry h = ground (
  arith,
  collect_repos-NoSlash (if nat_beq (length (split b'/' b)) 2 then w else invalid_entry w) before
      after entry h,
)

-- An entry with two slashes or more is reported with 400, and its first two parts are analysed
-- like any other repository.
pub collect_repos_two_slashes :
    (w : ResponseWriter) (owner repo rest : Bytes)
    → w.code ≡ none
    → NoSlash owner
    → NoSlash repo
    → (w' : ResponseWriter) × (collect_repos w ((owner ++ b'/' ∷ (repo ++ b'/' ∷ rest)) ∷ [])
        ≡ some (w', record { owner = owner; repo = repo } ∷ []))
      × (w'.code ≡ some 400)
unfolding collect_repos http_error
collect_repos_two_slashes w owner repo rest fresh ho hr = (
  invalid_entry w,
  ground (arith, split-two_slashes owner repo rest ho hr, split-ne-nil rest),
  ground arith,
)
