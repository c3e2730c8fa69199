-- ===== src/QldbStore/Partition.antt =====
-- The loop that both stores use to sort the requested repositories.
use mrvacommander.Prelude.{
  List, [], ◌∷◌, Bool, true, false, ◌≡◌, inl, inr, if◌then◌else◌, Bool-cases,
}
use mrvacommander.Common.Types.{NameWithOwner}

-- The repositories that are not found, and those that are, each in the order of the request.
unfoldable pub partition_repos :
    (NameWithOwner → Bool) → List NameWithOwner → List NameWithOwner × List NameWithOwner
partition_repos found [] = ([], [])
partition_repos found (repo ∷ repos) =
    let (missing, present) = partition_repos found repos in
    if found repo then (missing, repo ∷ present) else (repo ∷ missing, present)

-- A list is merged from one whose members lack a property and one whose members have it.
pub data Sorted (P : NameWithOwner → Type 0)
    : List NameWithOwner → List NameWithOwner → List NameWithOwner → Type 0 where
  done : Sorted P [] [] []
  absent :
      (repo : NameWithOwner) {repos missing present : List NameWithOwner}
      → (P repo → ⊥)
      → Sorted P repos missing present
      → Sorted P (repo ∷ repos) (repo ∷ missing) present
  present :
      (repo : NameWithOwner) {repos missing present : List NameWithOwner}
      → P repo
      → Sorted P repos missing present
      → Sorted P (repo ∷ repos) missing (repo ∷ present)

pub partition_repos-Sorted :
    (P : NameWithOwner → Type 0) (found : NameWithOwner → Bool)
    → ((repo : NameWithOwner) → found repo ≡ true → P repo)
    → ((repo : NameWithOwner) → found repo ≡ false → P repo → ⊥)
    → (repos : List NameWithOwner)
    → Sorted P repos (partition_repos found repos).0 (partition_repos found repos).1
unfolding partition_repos
partition_repos-Sorted P found holds fails [] = done
partition_repos-Sorted P found holds fails (repo ∷ repos) = elim (Bool-cases (found repo)) [
  | inl e ↦ rw e (present repo (holds repo e) (partition_repos-Sorted P found holds fails repos))
  | inr e ↦ rw e (absent repo (fails repo e) (partition_repos-Sorted P found holds fails repos))
]
