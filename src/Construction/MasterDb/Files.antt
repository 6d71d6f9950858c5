-- ===== src/Construction/MasterDb/Files.antt =====
-- The files: what is recreated, and what is still missing afterwards.
use akkon.Base.{
  ◌≡◌, refl, ◌∙◌, Bool, true, false, ◌||◌, ◌&&◌, not, Option, List, [], ◌∷◌, if◌then◌else◌, arith,
}
use akkon.Base.Text.{Text, codes, text_eq}
use akkon.Construction.MasterDb.{DatabaseInfo, Env, MasterDb, exists_file}
use akkon.Construction.MasterDb.Registry.{at}
use akkon.Construction.MasterDb.Operations.{
  uuid_path, set_file, write_file, recreate_missing, get_missing,
}

-- No file is lost.
abbrev pub Extends : {Db : Type 0} → (Text → Option Db) → (Text → Option Db) → Type 0
Extends files files' = (p : Text) → exists_file (files p) ≡ true → exists_file (files' p) ≡ true

module _ {Db : Type 0} (env : Env Db) where
  -- The files that `recreateMissing` writes: in the directory of the registry, named by the uuid.
  abbrev pub recreates : List DatabaseInfo → Text → Bool
  recreates [] path = false
  recreates (info ∷ missing) path =
      (env.can_open (uuid_path env info) && text_eq (uuid_path env info) path)
      || recreates missing path

  pub exists_file-set_file :
      (path p : Text) (db : Db) (files : Text → Option Db)
      → exists_file (set_file env path db files p) ≡ (text_eq path p || exists_file (files p))
  exists_file-set_file path p db files = ground arith

  or_swap : (a b c d : Bool) → c ≡ (b || d) → (a || c) ≡ ((b || a) || d)
  or_swap a b c d h = ground (arith, h)

  recreate_missing_lem :
      (missing : List DatabaseInfo) (m : MasterDb Db) (p : Text)
      → exists_file ((recreate_missing env missing m).files p)
        ≡ (recreates missing p || exists_file (m.files p))
  unfolding recreate_missing
  recreate_missing_lem [] m p = refl
  recreate_missing_lem (info ∷ missing) m p =
      by_test (env.can_open (uuid_path env info)) (λ n. recreate_missing_lem missing n p)
    where
      written : MasterDb Db
      written = write_file env (codes "INSERT OR REPLACE") info (uuid_path env info) m

      by_test :
          (b : Bool)
          → ((n : MasterDb Db)
              → exists_file ((recreate_missing env missing n).files p)
                ≡ (recreates missing p || exists_file (n.files p)))
          → exists_file ((recreate_missing env missing (if b then written else m)).files p) ≡ (
              ((b && text_eq (uuid_path env info) p) || recreates missing p)
              || exists_file (m.files p))
      by_test true rest =
          rest written
          ∙ or_swap (recreates missing p) (text_eq (uuid_path env info) p)
              (exists_file (written.files p)) (exists_file (m.files p))
              (exists_file-set_file (uuid_path env info) p _ m.files)
      by_test false rest = rest m

  -- Those that satisfy a test.
  abbrev pub filter : (DatabaseInfo → Bool) → List DatabaseInfo → List DatabaseInfo
  filter p [] = []
  filter p (info ∷ infos) = let rest = filter p infos in if p info then info ∷ rest else rest

  get_missing-filter :
      (existing : List DatabaseInfo) (m n : MasterDb Db) (made : Text → Bool)
      → ((p : Text) → exists_file (n.files p) ≡ (made p || exists_file (m.files p)))
      → get_missing env existing n
        ≡ filter (λ info. not (made info.file_pos)) (get_missing env existing m)
  unfolding get_missing
  get_missing-filter [] m n made h = refl
  get_missing-filter (info ∷ existing) m n made h =
      ground (arith, h info.file_pos, get_missing-filter existing m n made h)

  -- After `recreateMissing` has run on what `getMissing` finds, `getMissing` finds those of them
  -- whose registered path is not one of the paths that were written, each of which is the directory
  -- with the uuid.
  pub get_missing-recreate_missing :
      (existing : List DatabaseInfo) (m : MasterDb Db)
      → get_missing env existing (recreate_missing env (get_missing env existing m) m)
        ≡ filter
            (λ info. not (recreates (get_missing env existing m) info.file_pos))
            (get_missing env existing m)
  get_missing-recreate_missing existing m =
      get_missing-filter existing m (recreate_missing env (get_missing env existing m) m)
        (recreates (get_missing env existing m))
        (recreate_missing_lem (get_missing env existing m) m)

  -- The database of the registry is as it was.
  pub recreate_missing-at :
      (missing : List DatabaseInfo) (db : Db) (files : Text → Option Db)
      → (files' : Text → Option Db) × (recreate_missing env missing (at db files) ≡ at db files')
        × Extends files files'
  unfolding recreate_missing
  recreate_missing-at [] db files = (files, refl, λ p h. h)
  recreate_missing-at (info ∷ missing) db files =
      by_test (env.can_open (uuid_path env info)) (λ f. recreate_missing-at missing db f)
    where
      written : Text → Option Db
      written =
          (write_file env (codes "INSERT OR REPLACE") info (uuid_path env info) (at db files)).files

      by_test :
          (b : Bool)
          → ((f : Text → Option Db)
              → (f' : Text → Option Db) × (recreate_missing env missing (at db f) ≡ at db f')
                × Extends f f')
          → (f' : Text → Option Db) × (recreate_missing env missing
                (if b then at db written else at db files)
              ≡ at db f')
            × Extends files f'
      by_test true rest =
          let (f', done, kept) = rest written in
          (
            f',
            done,
            λ p h. kept p (ground (arith, exists_file-set_file (uuid_path env info) p _ files, h)),
          )
      by_test false rest = rest files
