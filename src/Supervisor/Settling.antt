-- ===== src/Supervisor/Settling.antt =====
-- docker/docker-supervisor.ts: when `spawnProject` comes back.
use ai_support_agent_cli.Common.{
  ℕ, zero, suc, String, ◌≡◌, refl, ap, ◌∙◌, inl, inr, Bool, true, false, not, ◌&&◌, ◌||◌, Option,
  none, some, List, ◌∷◌, arith, eq_refl, str_eq, if◌then◌else◌, Bool-cases, if_elim, insert,
}
use ai_support_agent_cli.Supervisor.State.{Folder, Supervisor, update_folder}
use ai_support_agent_cli.Supervisor.Starting.{
  project_agent_id, same_id, use_id, apply_registered_agent_id, hash_mismatch, launch, begin_build,
  wait_for_image, rebuild_and_restart, spawn_project,
}

use_id-only :
    (key : String) (id : Option String) (s : Supervisor)
    → (ids : List (String × String)) × (use_id key id s ≡ record s { agent_ids = ids })
use_id-only key none s = (s.agent_ids, refl)
use_id-only key (some id) s =
    elim (Bool-cases (str_eq id "" || same_id (project_agent_id key s) id)) [
      | inl e ↦ (s.agent_ids, rw e refl)
      | inr e ↦ (insert key id s.agent_ids, rw e refl)
    ]

registered_only :
    (key : String) (s : Supervisor)
    → (ids : List (String × String)) × (apply_registered_agent_id key s
        ≡ record s { agent_ids = ids })
unfolding apply_registered_agent_id
registered_only key s = use_id-only key (s.folders key).registered_agent_id s

-- A project whose hashes agree gets its container at once.
pub spawn_project-launches :
    (rounds : ℕ) (key : String) (s : Supervisor)
    → hash_mismatch (s.folders key) ≡ false
    → (ids : List (String × String)) × (spawn_project (suc rounds) key s
        ≡ launch key (record s { agent_ids = ids }))
unfolding spawn_project
spawn_project-launches rounds key s m =
    let (ids, e) = registered_only key s in (ids, rw m (ap (launch key) e))

-- The branches of `rebuildAndRestart` where it is forced.
builds {ℓ} :
    {A : Type ℓ} (needed dockerfile : Bool) (x y z : A)
    → dockerfile ≡ true
    → (if not (needed || true && dockerfile) then x else if dockerfile then y else z) ≡ y
builds true true x y z d = refl
builds false true x y z d = refl
builds needed false x y z d = cc

goes_on {ℓ} :
    {A : Type ℓ} (needed dockerfile : Bool) (x y z : A)
    → dockerfile ≡ false
    → (if not (needed || true && dockerfile) then x else if dockerfile then y else z)
      ≡ (if needed then z else x)
goes_on needed true x y z d = cc
goes_on true false x y z d = refl
goes_on false false x y z d = refl

-- With a Dockerfile a forced rebuild waits for the image.
pub rebuild_and_restart-waits :
    (next : String → Supervisor → Supervisor) (key : String) (s : Supervisor)
    → (s.folders key).has_dockerfile ≡ true
    → (ids : List (String × String)) × (folders : String → Folder) × (rebuild_and_restart next true
          key s
        ≡ record s { agent_ids = ids; folders = folders; building = key ∷ s.building })
unfolding rebuild_and_restart
rebuild_and_restart-waits next key s d =
    let marked = update_folder key (record (s.folders key) { rebuild_needed = false }) s.folders in
    let (ids, e) = registered_only key (record s { folders = marked }) in
    (
      ids,
      marked,
      builds (s.folders key).rebuild_needed (s.folders key).has_dockerfile (next key s)
            (wait_for_image key (begin_build key s)) (next key (begin_build key s)) d
          ∙ ap (wait_for_image key) e,
    )

-- The files say that another image is wanted, and there is nothing to build it from.
abbrev pub stuck : Folder → Bool
stuck folder = hash_mismatch folder && not folder.has_dockerfile

module _ (rounds : ℕ) (key : String) (s : Supervisor)
    (e : hash_mismatch (s.folders key) ≡ true) where
  rebuilds :
      spawn_project (suc rounds) key s ≡ rebuild_and_restart (spawn_project rounds) true key s
  unfolding spawn_project
  rebuilds = rw e refl

  mismatch_waits :
      (s.folders key).has_dockerfile ≡ true
      → (spawn_project (suc rounds) key s).overflown ≡ (s.overflown || stuck (s.folders key))
  mismatch_waits d =
      let (ids, folders, waits) = rebuild_and_restart-waits (spawn_project rounds) key s d in
      rw (rebuilds, waits, d, e) (ground arith)

rebuild_and_restart-goes_on :
    (next : String → Supervisor → Supervisor) (key : String) (s : Supervisor)
    → (s.folders key).has_dockerfile ≡ false
    → rebuild_and_restart next true key s
      ≡ (if (s.folders key).rebuild_needed then next key (begin_build key s) else next key s)
unfolding rebuild_and_restart
rebuild_and_restart-goes_on next key s d =
    goes_on (s.folders key).rebuild_needed (s.folders key).has_dockerfile (next key s)
      (wait_for_image key (begin_build key s)) (next key (begin_build key s)) d

-- The marker is gone once a rebuild has begun, and nothing else of the folder.
begin_build-folder :
    (key : String) (s : Supervisor)
    → (begin_build key s).folders key ≡ record (s.folders key) { rebuild_needed = false }
begin_build-folder key s =
    let marked = update_folder key (record (s.folders key) { rebuild_needed = false }) s.folders in
    let (ids, e) = registered_only key (record s { folders = marked }) in rw (e, eq_refl key) refl

spawn_project-stuck :
    (rounds : ℕ) (key : String) (s : Supervisor)
    → hash_mismatch (s.folders key) ≡ true
    → (s.folders key).has_dockerfile ≡ false
    → (spawn_project rounds key s).overflown ≡ true
unfolding spawn_project
spawn_project-stuck zero key s e d = refl
spawn_project-stuck (suc rounds) key s e d =
    let after = begin_build-folder key s in
    rw (e, rebuild_and_restart-goes_on (spawn_project rounds) key s d)
      (if_elim (λ (t : Supervisor). t.overflown ≡ true) (s.folders key).rebuild_needed _ _
        (λ _. spawn_project-stuck rounds key (begin_build key s) (rw after e) (rw after d))
        (λ _. spawn_project-stuck rounds key s e d))

-- `spawnProject` comes back unless the hashes differ and there is no Dockerfile, where it calls itself
-- without an end: any number of rounds from one on tells the two apart, and whether it comes back is the
-- same for all of them.
pub spawn_project-settles :
    (rounds : ℕ) (key : String) (s : Supervisor)
    → (spawn_project (suc rounds) key s).overflown ≡ (s.overflown || stuck (s.folders key))
spawn_project-settles rounds key s = elim (Bool-cases (hash_mismatch (s.folders key))) [
  | inl e ↦ elim (Bool-cases (s.folders key).has_dockerfile) [
    | inl d ↦ mismatch_waits rounds key s e d
    | inr d ↦ rw (spawn_project-stuck (suc rounds) key s e d, e, d) (ground arith)
  ]
  | inr e ↦
      let (ids, launched) = spawn_project-launches rounds key s e in rw (launched, e) (ground arith)
]
