-- ===== src/Testsuite/Creation.antt =====
-- What `createInstance` tracks.
use akkon.Base.{
  ℕ, ◌≡◌, ◌⊎◌, inl, inr, refl, ◌∙◌, Bool, true, false, if_cases, Option, none, some, List, [],
  if◌then◌else◌, arith,
}
use akkon.Base.Int.{pos}
use akkon.Base.Text.{Text, codes, text_eq}
use akkon.Base.TextMap.{lookup, lookup-insert, lookup-insert_ne}
use akkon.Construction.MasterDb.{is_empty}
use akkon.Testsuite.{InstanceInfo, Os, Framework, is_started, running}
use akkon.Testsuite.Instances.{
  in_system, track, get_tracking, start_tracked, after_open, after_spawn, after_start,
  start_process, instance_info, in_directory, generate_tracker_id, create_instance,
}

-- Tracked as running, as a process.
pub record Runs {W : Type 0} (key : Text) (f : Framework W) : Type 0 where
  pub info : InstanceInfo
  pub tracked : lookup key f.m_instances ≡ some info
  pub status : info.status ≡ running
  pub started : is_started info.pid ≡ true

-- The other instances are as they were.
abbrev pub KeepsOthers : {W : Type 0} → Text → Framework W → Framework W → Type 0
KeepsOthers key f g =
    (other : Text)
    → text_eq other key ≡ false
    → lookup other g.m_instances ≡ lookup other f.m_instances

module _ {W : Type 0} where
  track-KeepsOthers :
      (key : Text) (info : InstanceInfo) (f g : Framework W)
      → KeepsOthers key f g
      → KeepsOthers key f (track key info g)
  track-KeepsOthers key info f g h other differs =
      lookup-insert_ne other key info g.m_instances differs ∙ h other differs

module _ {W : Type 0} (os : Os W) where
  -- A process, if it starts; no other instance is touched.
  abbrev pub Starts : Text → Framework W → Bool × Framework W → Type 0
  Starts key f result =
      KeepsOthers key f result.1
      × (result.0 ≡ true
          → (info : InstanceInfo) × (lookup key result.1.m_instances ≡ some info)
            × (is_started info.pid ≡ true))

  fails : (key : Text) (f : Framework W) (w : W) → Starts key f (false, in_system w f)
  fails key f w = ((λ other _. refl), λ h. absurd (ground (arith, h)))

  after_spawn-Starts :
      (key : Text) (info : InstanceInfo) (spawned : Option ℕ) (w : W) (f : Framework W)
      → Starts key f (after_spawn os key info (spawned, w) f)
  after_spawn-Starts key info none w f = fails key f w
  after_spawn-Starts key info (some pid) w f = (
    track-KeepsOthers key (record info { pid = pos pid }) f f (λ other _. refl),
    λ _. (
      record info { pid = pos pid },
      lookup-insert key (record info { pid = pos pid }) f.m_instances,
      refl,
    ),
  )

  after_open-Starts :
      (key : Text) (info : InstanceInfo) (args : List Text) (log : Option W) (f : Framework W)
      → Starts key f (after_open os key info args log f)
  after_open-Starts key info args none f = fails key f f.system
  after_open-Starts key info args (some w) f =
      if_cases (Starts key f) (os.exists w info.binary_path) _ _
        (λ _. after_spawn-Starts key info _ _ f)
        (λ _. ((λ other _. refl), λ h. absurd (ground (arith, h))))

  start_tracked-Starts :
      (key : Text) (args : List Text) (found : Option InstanceInfo) (f : Framework W)
      → Starts key f (start_tracked os key args found f)
  start_tracked-Starts key args none f = fails key f f.system
  start_tracked-Starts key args (some info) f =
      after_open-Starts key info args (os.open_append f.system info.log_file) f

  -- The identifier is empty, or the instance runs under it.
  abbrev pub Creates : Text → Framework W → Text × Framework W → Type 0
  Creates key f result =
      KeepsOthers key f result.1 × ((result.0 ≡ []) ⊎ ((result.0 ≡ key) × Runs key result.1))

  after_start-Creates :
      (key : Text) (info : InstanceInfo) (f : Framework W) (result : Bool × Framework W)
      → Starts key f result
      → Creates key f (after_start os key info result)
  unfolding get_tracking
  after_start-Creates key info f (false, g) (kept, starts) =
      (track-KeepsOthers key (record info { status = codes "error" }) f g kept, inl refl)
  after_start-Creates key info f (true, g) (kept, starts) =
      let (found, tracked, started) = starts refl in
      (
        track-KeepsOthers key (record (get_tracking key g) { status = running }) f g kept,
        inr (
          refl,
          record {
            info = record (get_tracking key g) { status = running };
            tracked =
                lookup-insert key (record (get_tracking key g) { status = running }) g.m_instances;
            status = refl;
            started = rw (get_tracking, tracked) started;
          },
        ),
      )

  in_directory-Creates :
      (key : Text) (args : List Text) (logs_dir : Text) (made : Option W) (f : Framework W)
      → Creates key f (in_directory os key args logs_dir made f)
  unfolding start_process
  in_directory-Creates key args logs_dir none f = ((λ other _. refl), inl refl)
  in_directory-Creates key args logs_dir (some w) f =
      let info = instance_info os key args logs_dir w in
      let tracked = track key info (in_system w f) in
      let (kept, created) =
        after_start-Creates key info tracked (start_process os key args tracked)
          (start_tracked-Starts key args (lookup key tracked.m_instances) tracked) in
      (
        (λ other differs.
            kept other differs ∙ lookup-insert_ne other key info f.m_instances differs),
        created,
      )

  -- `createInstance` returns an empty identifier, or one under which the instance is then tracked as
  -- running, with a process; the entries of all other identifiers are as they were.
  pub create_instance_lem :
      (args : List Text) (log_dir : Text) (f : Framework W)
      → (key : Text) × Creates key f (create_instance os args log_dir f)
  unfolding create_instance
  create_instance_lem args log_dir f =
      let drawn = generate_tracker_id os f.system in
      (
        drawn.0,
        in_directory-Creates drawn.0 args (if is_empty log_dir then codes "test_logs" else log_dir)
            _ (in_system drawn.1 f),
      )
