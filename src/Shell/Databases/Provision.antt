-- ===== src/Shell/Databases/Provision.antt =====
-- What a run leaves in the registry.
use akkon.Base.{
  ℕ, zero, suc, ◌+◌, ltb, if◌then◌else◌, ◌≡◌, true, Option, List, [], ◌∷◌, ◌++◌, map, length, All,
}
use akkon.Base.Int.{ℤ, pos, negsuc}
use akkon.Base.Text.{Text}
use akkon.Construction.MasterDb.{DatabaseInfo, Env, MasterDb, exists_file}
use akkon.Construction.MasterDb.Operations.{created_info, new_info, uuid_path}
use akkon.Construction.MasterDb.Laws.{Row, row_info, Behaves}
use akkon.Construction.MasterDb.Registry.{at, IsNew}
use akkon.Construction.MasterDb.Files.{Extends}

-- The number of databases that `-c num_databases` asks for, where `count` are there.
abbrev pub wanted : ℤ → ℕ → ℕ
wanted (pos n) count = if ltb count n then n else count
wanted (negsuc n) count = count

module _ {Db : Type 0} (env : Env Db) (HasTable : Db → Type 0) (table : Db → List Row)
    (next_id : Db → ℕ) (laws : Behaves env.sqlite HasTable table next_id)
    (draws : ℕ → Text × Text) where
  -- The databases of the rounds from `i` on can be opened, and their uuids are new.
  abbrev pub AreNew : ℕ → ℕ → List Text → Type 0
  AreNew zero i known = Unit
  AreNew (suc n) i known =
      (env.can_open (uuid_path env (new_info env (draws i).0 (draws i).1)) ≡ true)
      × IsNew (created_info env (draws i).0 (draws i).1) known
      × AreNew n (i + 1) (known ++ (draws i).0 ∷ [])

  abbrev pub Present : (Text → Option Db) → DatabaseInfo → Type 0
  Present files info = exists_file (files info.file_pos) ≡ true

  -- After `n` rounds: the registry has `n` databases more, whose files exist.
  pub record Grown (n : ℕ) (infos : List DatabaseInfo) (files : Text → Option Db)
      (result : List DatabaseInfo × MasterDb Db) : Type 0 where
    pub db' : Db
    pub files' : Text → Option Db
    pub more : List DatabaseInfo
    pub shape : result ≡ (infos ++ more, at db' files')
    pub has : HasTable db'
    pub registered : map row_info (table db') ≡ infos ++ more
    pub counted : length more ≡ n
    pub kept : Extends files files'
    pub present : All (Present files') more
