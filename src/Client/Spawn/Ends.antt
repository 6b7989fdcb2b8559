-- ===== src/Client/Spawn/Ends.antt =====
-- `connect_or_spawn` of crates/client/src/spawn.rs ends.
use recurse.Base.{
  ℕ, zero, suc, ◌+◌, ◌*◌, ◌≤◌, ◌≡◌, refl, ap, ◌∙◌, inl, inr, Bool, true, false, Option, none, some,
  ltb, arith, Text, Bool-cases,
}
use recurse.Base.Fallible.{Fallible, returns, raises}
use recurse.Client.Sse.{ClientError, rpc, transport, protocol}
use recurse.Client.Spawn.{
  Surroundings, poll_interval, spawn_deadline, Checked, ends, goes_on, checked, poll_health,
  after_spawn, after_first, with_client, connect_or_spawn,
}

module _ (s : Surroundings) where
  abbrev pub Outcome : Type 0
  Outcome = Fallible ClientError (Unit {0}) × s.World

  -- A success is the answer of a health check.
  abbrev pub Healthy : Outcome → Type 0
  Healthy (returns u, w) = (v : s.World) × (s.health v ≡ (returns u, w))
  Healthy (raises error, w) = Unit {0}

  healthy :
      (result : Fallible ClientError (Unit {0})) (v w : s.World)
      → s.health v ≡ (result, w)
      → Healthy (result, w)
  healthy (returns u) v w h = (v, h)
  healthy (raises error) v w h = tt

  abbrev Ends : Option Outcome → Type 0
  Ends result = (outcome : Outcome) × (result ≡ some outcome) × Healthy outcome

  failed : (error : ClientError) (w : s.World) → Ends (some (raises error, w))
  failed error w = ((raises error, w), refl, tt)

  checked_ends :
      (answer : Fallible ClientError (Unit {0})) (result : Fallible ClientError (Unit {0}))
      → checked s answer ≡ ends result
      → answer ≡ result
  unfolding checked
  checked_ends (returns u) result h = cc
  checked_ends (raises (protocol message)) result h = cc
  checked_ends (raises (transport message)) result h = cc
  checked_ends (raises (rpc error)) result h = cc

  module _ (slept : (w : s.World) → s.now w + poll_interval ≤ s.now (s.sleep poll_interval w))
      (onward : (w : s.World) → s.now w ≤ s.now (s.health w).1) (base_url : Text) where
    round_ends :
        (f deadline : ℕ) (answer : Fallible ClientError (Unit {0})) (v w : s.World) (c : Checked s)
        → s.health v ≡ (answer, w)
        → checked s answer ≡ c
        → ((error : ClientError) → Ends (poll_health s base_url f deadline (some error) w))
        → Ends (elim c [
          | ends result ↦ some (result, w)
          | goes_on error ↦ poll_health s base_url f deadline (some error) w
        ])
    round_ends f deadline answer v w (ends result) h e later = (
      (result, w),
      refl,
      healthy result v w (h ∙ ap (λ r. (r, w)) (checked_ends answer result e)),
    )
    round_ends f deadline answer v w (goes_on error) h e later = later error

    poll_ends :
        (f deadline : ℕ) (last_error : Option ClientError) (w : s.World)
        → deadline ≤ s.now w + f * poll_interval
        → Ends (poll_health s base_url (suc f) deadline last_error w)
    unfolding poll_health
    poll_ends zero deadline last_error w h = elim (Bool-cases (ltb (s.now w) deadline)) [
      | inr late ↦ rw late (failed _ w)
      | inl soon ↦ absurd (ground arith)
    ]
    poll_ends (suc f) deadline last_error w h = elim (Bool-cases (ltb (s.now w) deadline)) [
      | inr late ↦ rw late (failed _ w)
      | inl soon ↦
          let v = s.sleep poll_interval w in
          let w' = (s.health v).1 in
          let later : deadline ≤ s.now w' + f * poll_interval = omega (arith, slept w, onward v) in
          rw soon (
            round_ends (suc f) deadline (s.health v).0 v w' (checked s (s.health v).0) refl refl
              (λ error. poll_ends f deadline (some error) w' later))
    ]

    first_ends :
        (url_set : Bool) (answer : Fallible ClientError (Unit {0})) (v w : s.World) (c : Checked s)
        → s.health v ≡ (answer, w)
        → checked s answer ≡ c
        → Ends (after_first s base_url url_set 68 c w)
    first_ends url_set answer v w (ends result) h e = (
      (result, w),
      refl,
      healthy result v w (h ∙ ap (λ r. (r, w)) (checked_ends answer result e)),
    )
    first_ends true answer v w (goes_on error) h e = failed error w
    first_ends false answer v w (goes_on error) h e =
        spawn_ends (s.spawn_daemon w).0 (s.spawn_daemon w).1
      where
        spawn_ends :
            (started : Fallible ClientError (Unit {0})) (w : s.World)
            → Ends (after_spawn s base_url 68 started w)
        spawn_ends (raises error) w = failed error w
        spawn_ends (returns u) w = poll_ends 67 (s.now w + spawn_deadline) none w (omega arith)

    client_ends :
        (client : Fallible ClientError (Unit {0})) (url_set : Bool) (w : s.World)
        → Ends (with_client s base_url url_set 68 client w)
    client_ends (raises error) url_set w = failed error w
    client_ends (returns u) url_set w =
        first_ends url_set (s.health w).0 w (s.health w).1 (checked s (s.health w).0) refl refl

    -- If `sleep` takes at least as long as it is asked to and the clock does not go back, connecting
    -- ends after at most 68 rounds, and it succeeds only with a health check that just succeeded.
    pub connect_or_spawn-ends :
        (url_set : Bool) (w : s.World)
        → (outcome : Outcome) × (connect_or_spawn s base_url url_set 68 w ≡ some outcome)
          × Healthy outcome
    unfolding connect_or_spawn
    connect_or_spawn-ends url_set w = client_ends s.from_env url_set w
