-- ===== src/Worker/Waits.antt =====
-- The runs of internal/worker/worker.go do not wait for each other in a circle.
use mathlib.Core.Path.{subst}
use resolver_addon.Prelude.{
  ◌≡◌, ◌≢◌, refl, sym, ap, ◌∙◌, Bool, true, false, List, [], ◌∷◌, Option, none, some, inl, inr, ◌⊎◌,
  Bool-cases, All,
}
use resolver_addon.Prelude.Update.{update, update-same, update-other}
use resolver_addon.Worker.Flags.{Flag, Flag-discrete, RunningWorker, switch, wait_for, on_end}
use resolver_addon.Worker.Roster.{Features, hooks, owner}
use resolver_addon.Worker.Turns.{
  RunId, RunId-discrete, Phase, skipped, ending, idle, over, entered, waiting, checked, started,
  Workers, go_on, rest, start, finish, Steps, Reach, leave, passes, starts, ends, finishes, here,
  next, Steps-append,
}
use resolver_addon.Worker.Owners.{
  is_started, run_of, switch-own, enter-same, AreKept, Reach-AreKept, Step-AreKept, finish-AreKept,
}

wait_for-clear :
    (fs : List Flag) (r : RunningWorker) → All (λ f. r f ≡ false) fs → (wait_for fs r).0 ≡ false
unfolding wait_for
wait_for-clear [] r h = refl
wait_for-clear (f ∷ fs) r (h, hs) = rw h (wait_for-clear fs r hs)

-- A run that is between OnStart and OnEnd is not one that waits.
other_phase :
    (s : Workers) (x r : RunId) (w : Bool)
    → is_started (s.phase x) ≡ true
    → s.phase r ≡ waiting w
    → x ≢ r
other_phase s x r w hx hr e =
    let p : true ≡ false = sym hx ∙ ap (λ y. is_started (s.phase y)) e ∙ ap is_started hr in cc

started-of-true : (p : Phase) → is_started p ≡ true → ((b : Bool) × (p ≡ started b)) ⊎ (p ≡ ending)
started-of-true idle h = cc
started-of-true over h = cc
started-of-true skipped h = cc
started-of-true ending h = inr refl
started-of-true (entered b) h = cc
started-of-true (waiting b) h = cc
started-of-true (checked b) h = cc
started-of-true (started b) h = inl (b, refl)

module _ (c : Features) where
  -- What is left after the runs that hold the flags have ended.
  abbrev Cleared : RunId → Bool → List Flag → Workers → Workers → Type 0
  Cleared r w fs s t =
      Steps c s t
      × AreKept t
      × (t.phase r ≡ waiting w)
      × ((f : Flag) → s.running f ≡ false → t.running f ≡ false)
      × All (λ f. t.running f ≡ false) fs

  switch-clear :
      (o : Option Flag) (r : RunningWorker) (f : Flag) → r f ≡ false → switch o false r f ≡ false
  switch-clear none r f h = h
  switch-clear (some g) r f h = elim (Flag-discrete g f) [
    | yes e ↦
        subst (λ x. update Flag-discrete r g false x ≡ false) e
          (update-same Flag-discrete r g false)
    | no d ↦ update-other Flag-discrete r g false f d ∙ h
  ]

  -- A run behind OnStart can end; the other runs stay where they are.
  abbrev Ended : RunId → Workers → Workers → Type 0
  Ended x s t =
      Steps c s t
      × AreKept t
      × (t.running ≡ on_end (hooks x.worker) s.running)
      × ((r : RunId) → x ≢ r → t.phase r ≡ s.phase r)

  end_run :
      (x : RunId) (s : Workers)
      → AreKept s
      → is_started (s.phase x) ≡ true
      → (t : Workers) × Ended x s t
  end_run x s kept on = elim (started-of-true (s.phase x) on) [
    | inr e ↦ (
      finish s x,
      (
        next here (finishes x e),
        finish-AreKept s x kept,
        refl,
        λ r d. update-other RunId-discrete s.phase x (rest x.task) r d,
      ),
    )
    | inl (b, e) ↦
        let u : Workers = leave s x b ending in
        (
          finish u x,
          (
            next (next here (ends x b e)) (finishes x (enter-same s x ending)),
            finish-AreKept u x (Step-AreKept c {s = s} {t = u} (ends x b e) kept),
            refl,
            λ r d.
                update-other RunId-discrete u.phase x (rest x.task) r d
                ∙ update-other RunId-discrete s.phase x ending r d,
          ),
        )
  ]

  -- The flag `f` is clear, or a run of its owner can end.
  clear_one :
      (r : RunId) (w : Bool) (f : Flag) (s : Workers)
      → AreKept s
      → s.phase r ≡ waiting w
      → (t : Workers) × Cleared r w (f ∷ []) s t
  clear_one r w f s kept h = elim (Bool-cases (s.running f)) [
    | inr off ↦ (s, (here, kept, h, (λ g e. e), (off, tt)))
    | inl on ↦
        let (k, at) = kept f on in
        let x : RunId = run_of f k in
        let (t, (q, kept', ended, still)) = end_run x s kept at in
        (
          t,
          (
            q,
            kept',
            still r (other_phase s x r w at h) ∙ h,
            (λ g e. ap (λ v. v g) ended ∙ switch-clear (hooks (owner f)).own_flag s.running g e),
            (ap (λ v. v f) ended ∙ switch-own (owner f) false s.running f refl, tt),
          ),
        )
  ]

  clear_all :
      (r : RunId) (w : Bool) (fs : List Flag) (s : Workers)
      → AreKept s
      → s.phase r ≡ waiting w
      → (t : Workers) × Cleared r w fs s t
  clear_all r w [] s kept h = (s, (here, kept, h, (λ g e. e), tt))
  clear_all r w (f ∷ fs) s kept h =
      let (t, (p, kept', h', less, (off, _))) = clear_one r w f s kept h in
      let (u, (q, kept'', h'', less', offs)) = clear_all r w fs t kept' h' in
      (u, (Steps-append c p q, kept'', h'', (λ g e. less' g (less g e)), (less' f off, offs)))

  -- From every state that the workers reach, where a run is in its loop over ShouldWait, there are steps
  -- after which it is between OnStart and OnEnd: no runs block each other. That these steps are taken is
  -- not said.
  pub waiting-starts :
      (s : Workers) (r : RunId) (b : Bool)
      → Reach c s
      → s.phase r ≡ waiting b
      → (t : Workers) × Steps c s t × (t.phase r ≡ started b)
  waiting-starts s r b reach h =
      let fs = (hooks r.worker).waits_for in
      let (t, (q, kept, h', less, offs)) = clear_all r b fs s (Reach-AreKept c s reach) h in
      let u = go_on t r (checked b) in
      (
        start u r b,
        next (next q (passes r b h' (wait_for-clear fs t.running offs)))
            (starts r b (enter-same t r (checked b))),
        enter-same u r (started b),
      )
