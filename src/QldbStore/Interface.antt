-- ===== src/QldbStore/Interface.antt =====
-- pkg/qldbstore/interfaces.go
use mrvacommander.Prelude.{Bytes, List}
use mrvacommander.Common.Types.{NameWithOwner}
use mrvacommander.Common.Errors.{Fallible}

-- The interface `Store`, over the state `D` of a store, which a call may change (a cache).
pub record Store (D : Type 0) : Type 0 where
  -- The repositories without and those with a database.
  pub find_available_dbs : D → List NameWithOwner → D × List NameWithOwner × List NameWithOwner
  pub get_database : D → NameWithOwner → D × Fallible Bytes
