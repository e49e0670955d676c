-- ===== src/Worker/Owners.antt =====
-- A flag of internal/worker/worker.go is set only while a run of its owner is between OnStart and OnEnd.
use mathlib.Core.Path.{subst}
use resolver_addon.Prelude.{
  ◌≡◌, ◌≢◌, refl, sym, ap, ◌∙◌, Bool, true, false, Option, none, some, inl, inr, ◌⊎◌,
}
use resolver_addon.Prelude.Update.{update-same, update-other}
use resolver_addon.Worker.Flags.{Flag, Flag-discrete, RunningWorker, switch, on_start, on_end}
use resolver_addon.Worker.Roster.{WorkerId, WorkerId-discrete, Features, hooks, owner}
use resolver_addon.Worker.Turns.{
  TaskId, RunId, RunId-discrete, Phase, idle, skipped, ending, entered, waiting, checked, started,
  Workers, enter, go_on, rest, start, finish, Step, Reach, begins, skips, waits, passes, starts,
  takes_job, ends, finishes_skipped, finishes, fails, reports, here, next,
}

own_flag-owner : (f : Flag) → (hooks (owner f)).own_flag ≡ some f
own_flag-owner Flag.sync_anidb_titles = refl
own_flag-owner Flag.sync_animetosho = refl
own_flag-owner Flag.sync_bitmagnet = refl
own_flag-owner Flag.sync_dmm_hashlist = refl
own_flag-owner Flag.sync_imdb = refl
own_flag-owner Flag.map_anidb_torrent = refl
own_flag-owner Flag.map_imdb_torrent = refl
own_flag-owner Flag.sync_animeapi = refl
own_flag-owner Flag.sync_anidb_tvdb_episode_map = refl
own_flag-owner Flag.sync_manami_anime_database = refl

abbrev IsOwner : Option Flag → WorkerId → Type 0
IsOwner none w = Unit
IsOwner (some f) w = owner f ≡ w

own_flag-IsOwner : (w : WorkerId) → IsOwner (hooks w).own_flag w
own_flag-IsOwner WorkerId.parse_torrent_worker = tt
own_flag-IsOwner WorkerId.push_torrent_worker = tt
own_flag-IsOwner WorkerId.crawl_store_worker = tt
own_flag-IsOwner WorkerId.sync_imdb_worker = refl
own_flag-IsOwner WorkerId.sync_dmm_hashlist_worker = refl
own_flag-IsOwner WorkerId.map_imdb_torrent_worker = refl
own_flag-IsOwner WorkerId.pull_magnet_cache_worker = tt
own_flag-IsOwner WorkerId.map_anime_id_worker = tt
own_flag-IsOwner WorkerId.sync_animeapi_worker = refl
own_flag-IsOwner WorkerId.sync_anidb_titles_worker = refl
own_flag-IsOwner WorkerId.sync_anidb_tvdb_episode_map_worker = refl
own_flag-IsOwner WorkerId.manami_anime_database_worker = refl
own_flag-IsOwner WorkerId.map_anidb_torrent_worker = refl
own_flag-IsOwner WorkerId.sync_letterboxd_list_worker = tt
own_flag-IsOwner WorkerId.sync_bitmagnet_worker = refl
own_flag-IsOwner WorkerId.sync_animetosho_worker = refl
own_flag-IsOwner WorkerId.reload_linked_userdata_addon_worker = tt
own_flag-IsOwner WorkerId.sync_stremio_trakt_worker = tt
own_flag-IsOwner WorkerId.sync_stremio_stremio_worker = tt
own_flag-IsOwner WorkerId.queue_torznab_indexer_sync_worker = tt
own_flag-IsOwner WorkerId.sync_torznab_indexer_worker = tt

abbrev pub is_started : Phase → Bool
is_started ending = true
is_started (started b) = true
is_started _ = false

abbrev pub run_of : Flag → TaskId → RunId
run_of f k = record { worker = owner f; task = k }

-- Every flag that is set has a run of its owner between OnStart and OnEnd.
abbrev pub AreKept : Workers → Type 0
AreKept s =
    (f : Flag) → s.running f ≡ true → (k : TaskId) × (is_started (s.phase (run_of f k)) ≡ true)

-- A hook sets the flag of its worker.
pub switch-own :
    (w : WorkerId) (b : Bool) (r : RunningWorker) (f : Flag)
    → owner f ≡ w
    → switch (hooks w).own_flag b r f ≡ b
switch-own w b r f at =
    let own : (hooks w).own_flag ≡ some f =
      subst (λ v. (hooks v).own_flag ≡ some f) at (own_flag-owner f) in
    ap (λ o. switch o b r f) own ∙ update-same Flag-discrete r f b

-- It leaves the others.
pub switch-other :
    (w : WorkerId) (b : Bool) (r : RunningWorker) (f : Flag)
    → owner f ≢ w
    → switch (hooks w).own_flag b r f ≡ r f
switch-other w b r f apart = go (hooks w).own_flag (own_flag-IsOwner w)
  where
    go : (o : Option Flag) → IsOwner o w → switch o b r f ≡ r f
    go none own = refl
    go (some g) own = update-other Flag-discrete r g b f (λ e. apart (ap owner (sym e) ∙ own))

on_start-true :
    (w : WorkerId) (r : RunningWorker) (f : Flag)
    → on_start (hooks w) r f ≡ true
    → (owner f ≡ w) ⊎ (r f ≡ true)
on_start-true w r f h = elim (WorkerId-discrete (owner f) w) [
  | yes own ↦ inl own
  | no apart ↦ inr (sym (switch-other w true r f apart) ∙ h)
]

on_end-true :
    (w : WorkerId) (r : RunningWorker) (f : Flag)
    → on_end (hooks w) r f ≡ true
    → (owner f ≢ w) × (r f ≡ true)
on_end-true w r f h = elim (WorkerId-discrete (owner f) w) [
  | yes own ↦ absurd (let p : false ≡ true = sym (switch-own w false r f own) ∙ h in cc)
  | no apart ↦ (apart, sym (switch-other w false r f apart) ∙ h)
]

pub other_worker : (r x : RunId) → x.worker ≢ r.worker → r ≢ x
other_worker r x h at = h (ap (λ y. y.worker) (sym at))

pub enter-other :
    (s : Workers) (r x : RunId) (p : Phase)
    → r ≢ x
    → is_started (enter s r p x) ≡ is_started (s.phase x)
enter-other s r x p h = ap is_started (update-other RunId-discrete s.phase r p x h)

pub enter-same : (s : Workers) (r : RunId) (p : Phase) → enter s r p r ≡ p
enter-same s r p = update-same RunId-discrete s.phase r p

-- A run enters a phase that is between OnStart and OnEnd as the one before is.
go_on-AreKept :
    (s : Workers) (r : RunId) (p q : Phase)
    → s.phase r ≡ q
    → is_started q ≡ is_started p
    → AreKept s
    → AreKept (go_on s r p)
go_on-AreKept s r p q h e kept f on =
    let (k, at) = kept f on in
    elim (RunId-discrete r (run_of f k)) [
      | yes same ↦ (
        k,
        subst (λ x. is_started (enter s r p x) ≡ true) same
            (ap is_started (enter-same s r p)
              ∙ sym e
              ∙ ap is_started (sym h)
              ∙ ap (λ x. is_started (s.phase x)) same
              ∙ at),
      )
      | no d ↦ (k, enter-other s r (run_of f k) p d ∙ at)
    ]

start-AreKept : (s : Workers) (r : RunId) (b : Bool) → AreKept s → AreKept (start s r b)
start-AreKept s r b kept f on = elim (on_start-true r.worker s.running f on) [
  | inl own ↦ (
    r.task,
    subst (λ v. is_started (enter s r (started b) (record { worker = v; task = r.task })) ≡ true)
        (sym own) (ap is_started (enter-same s r (started b))),
  )
  | inr was ↦
      let (k, at) = kept f was in
      elim (RunId-discrete r (run_of f k)) [
        | yes e ↦ (
          k,
          subst (λ x. is_started (enter s r (started b) x) ≡ true) e
              (ap is_started (enter-same s r (started b))),
        )
        | no d ↦ (k, enter-other s r (run_of f k) (started b) d ∙ at)
      ]
]

-- The end of a run, whatever it leaves of the job ids.
leave-AreKept :
    (s : Workers) (r : RunId) (p : Phase)
    → AreKept s
    → (f : Flag) → on_end (hooks r.worker) s.running f ≡ true
    → (k : TaskId) × (is_started (enter s r p (run_of f k)) ≡ true)
leave-AreKept s r p kept f on =
    let (apart, was) = on_end-true r.worker s.running f on in
    let (k, at) = kept f was in
    (k, enter-other s r (run_of f k) p (other_worker r (run_of f k) apart) ∙ at)

pub finish-AreKept : (s : Workers) (r : RunId) → AreKept s → AreKept (finish s r)
finish-AreKept s r kept = leave-AreKept s r (rest r.task) kept

module _ (c : Features) where
  pub Step-AreKept : {s t : Workers} → Step c s t → AreKept s → AreKept t
  Step-AreKept {s} (begins r _ _ h) kept =
      go_on-AreKept s r (entered (s.has_job r.worker)) idle h refl kept
  Step-AreKept {s} (skips r b h) kept = go_on-AreKept s r skipped (entered b) h refl kept
  Step-AreKept {s} (waits r b h) kept = go_on-AreKept s r (waiting b) (entered b) h refl kept
  Step-AreKept {s} (passes r b h _) kept = go_on-AreKept s r (checked b) (waiting b) h refl kept
  Step-AreKept {s} (starts r b h) kept = start-AreKept s r b kept
  Step-AreKept {s} (takes_job r h) kept = kept
  Step-AreKept {s} (ends r b h) kept = go_on-AreKept s r ending (started b) h refl kept
  Step-AreKept {s} (finishes_skipped r h) kept = finish-AreKept s r kept
  Step-AreKept {s} (finishes r h) kept = finish-AreKept s r kept
  Step-AreKept {s} (fails r h) kept = leave-AreKept s r (rest r.task) kept
  Step-AreKept {s} (reports w n h) kept = kept

  -- In every state that the workers reach, a flag that is set has an owner with a run between OnStart and
  -- OnEnd, be it the run of the interval or that of the start.
  pub Reach-AreKept : (s : Workers) → Reach c s → AreKept s
  Reach-AreKept _ here f on = absurd (let p : false ≡ true = on in cc)
  Reach-AreKept _ (next r st) f on = Step-AreKept st (Reach-AreKept _ r) f on
