-- ===== src/Common/Api/Accounts.antt =====
-- The repository and account records of pkg/common/extapi.go, with their zero values.
use mrvacommander.Prelude.{Bytes, ℤ, pos, Bool, false, []}

pub record Actor : Type 0 where
  pub login : Bytes
  pub id : ℤ
  pub node_id : Bytes
  pub avatar_url : Bytes
  pub gravatar_id : Bytes
  pub url : Bytes
  pub html_url : Bytes
  pub followers_url : Bytes
  pub following_url : Bytes
  pub gists_url : Bytes
  pub starred_url : Bytes
  pub subscriptions_url : Bytes
  pub organizations_url : Bytes
  pub repos_url : Bytes
  pub events_url : Bytes
  pub received_events_url : Bytes
  pub type : Bytes
  pub site_admin : Bool

-- `Actor{}`
abbrev pub no_actor : Actor
no_actor = record {
  login = [];
  id = pos 0;
  node_id = [];
  avatar_url = [];
  gravatar_id = [];
  url = [];
  html_url = [];
  followers_url = [];
  following_url = [];
  gists_url = [];
  starred_url = [];
  subscriptions_url = [];
  organizations_url = [];
  repos_url = [];
  events_url = [];
  received_events_url = [];
  type = [];
  site_admin = false;
}

pub record ControllerRepo : Type 0 where
  pub id : ℤ
  pub node_id : Bytes
  pub name : Bytes
  pub full_name : Bytes
  pub private : Bool
  pub owner : Unit {0}
  pub html_url : Bytes
  pub description : Bytes
  pub fork : Bool
  pub forks_url : Bytes
  pub keys_url : Bytes
  pub collaborators_url : Bytes
  pub teams_url : Bytes
  pub hooks_url : Bytes
  pub issue_events_url : Bytes
  pub events_url : Bytes
  pub assignees_url : Bytes
  pub branches_url : Bytes
  pub tags_url : Bytes
  pub blobs_url : Bytes
  pub git_tags_url : Bytes
  pub git_refs_url : Bytes
  pub trees_url : Bytes
  pub statuses_url : Bytes
  pub languages_url : Bytes
  pub stargazers_url : Bytes
  pub contributors_url : Bytes
  pub subscribers_url : Bytes
  pub subscription_url : Bytes
  pub commits_url : Bytes
  pub git_commits_url : Bytes
  pub comments_url : Bytes
  pub issue_comment_url : Bytes
  pub contents_url : Bytes
  pub compare_url : Bytes
  pub merges_url : Bytes
  pub archive_url : Bytes
  pub downloads_url : Bytes
  pub issues_url : Bytes
  pub pulls_url : Bytes
  pub milestones_url : Bytes
  pub notifications_url : Bytes
  pub labels_url : Bytes
  pub releases_url : Bytes
  pub deployments_url : Bytes

-- `ControllerRepo{}`
abbrev pub no_controller_repo : ControllerRepo
no_controller_repo = record {
  id = pos 0;
  node_id = [];
  name = [];
  full_name = [];
  private = false;
  owner = tt;
  html_url = [];
  description = [];
  fork = false;
  forks_url = [];
  keys_url = [];
  collaborators_url = [];
  teams_url = [];
  hooks_url = [];
  issue_events_url = [];
  events_url = [];
  assignees_url = [];
  branches_url = [];
  tags_url = [];
  blobs_url = [];
  git_tags_url = [];
  git_refs_url = [];
  trees_url = [];
  statuses_url = [];
  languages_url = [];
  stargazers_url = [];
  contributors_url = [];
  subscribers_url = [];
  subscription_url = [];
  commits_url = [];
  git_commits_url = [];
  comments_url = [];
  issue_comment_url = [];
  contents_url = [];
  compare_url = [];
  merges_url = [];
  archive_url = [];
  downloads_url = [];
  issues_url = [];
  pulls_url = [];
  milestones_url = [];
  notifications_url = [];
  labels_url = [];
  releases_url = [];
  deployments_url = [];
}

pub record DownloadRepo : Type 0 where
  pub id : ℤ
  pub node_id : Bytes
  pub name : Bytes
  pub full_name : Bytes
  pub private : Bool
  pub owner : Actor
  pub html_url : Bytes
  pub description : Bytes
  pub fork : Bool
  pub forks_url : Bytes
  pub keys_url : Bytes
  pub collaborators_url : Bytes
  pub teams_url : Bytes
  pub hooks_url : Bytes
  pub issue_events_url : Bytes
  pub events_url : Bytes
  pub assignees_url : Bytes
  pub branches_url : Bytes
  pub tags_url : Bytes
  pub blobs_url : Bytes
  pub git_tags_url : Bytes
  pub git_refs_url : Bytes
  pub trees_url : Bytes
  pub statuses_url : Bytes
  pub languages_url : Bytes
  pub stargazers_url : Bytes
  pub contributors_url : Bytes
  pub subscribers_url : Bytes
  pub subscription_url : Bytes
  pub commits_url : Bytes
  pub git_commits_url : Bytes
  pub comments_url : Bytes
  pub issue_comment_url : Bytes
  pub contents_url : Bytes
  pub compare_url : Bytes
  pub merges_url : Bytes
  pub archive_url : Bytes
  pub downloads_url : Bytes
  pub issues_url : Bytes
  pub pulls_url : Bytes
  pub milestones_url : Bytes
  pub notifications_url : Bytes
  pub labels_url : Bytes
  pub releases_url : Bytes
  pub deployments_url : Bytes

-- A `DownloadRepo` literal that names the id and the two names; every other field is zero.
abbrev pub download_repo : ℤ → Bytes → Bytes → DownloadRepo
download_repo id name full_name = record {
  id = id;
  node_id = [];
  name = name;
  full_name = full_name;
  private = false;
  owner = no_actor;
  html_url = [];
  description = [];
  fork = false;
  forks_url = [];
  keys_url = [];
  collaborators_url = [];
  teams_url = [];
  hooks_url = [];
  issue_events_url = [];
  events_url = [];
  assignees_url = [];
  branches_url = [];
  tags_url = [];
  blobs_url = [];
  git_tags_url = [];
  git_refs_url = [];
  trees_url = [];
  statuses_url = [];
  languages_url = [];
  stargazers_url = [];
  contributors_url = [];
  subscribers_url = [];
  subscription_url = [];
  commits_url = [];
  git_commits_url = [];
  comments_url = [];
  issue_comment_url = [];
  contents_url = [];
  compare_url = [];
  merges_url = [];
  archive_url = [];
  downloads_url = [];
  issues_url = [];
  pulls_url = [];
  milestones_url = [];
  notifications_url = [];
  labels_url = [];
  releases_url = [];
  deployments_url = [];
}
