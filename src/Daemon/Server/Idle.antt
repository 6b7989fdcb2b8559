-- ===== src/Daemon/Server/Idle.antt =====
-- The exit of an idle daemon, for `idle_watch` of crates/daemon/src/server.rs.
use recurse.Base.{
  ℕ, ◌+◌, ◌-◌, ◌≡◌, refl, ap, ◌∙◌, inl, inr, Bool, true, false, not, ◌&&◌, ◌||◌, List, [], ◌∷◌,
  if◌then◌else◌, ltb, leb, ◌==◌, arith, Bool-cases,
}
use recurse.Daemon.Server.{Watch, look_once, Moment, rpc, looks, moment, moments}

-- Every look follows less than the limit after the time of the last use.
abbrev pub busy : ℕ → ℕ → List Moment → Bool
busy limit last [] = true
busy limit last (rpc now ∷ rest) = busy limit now rest
busy limit last (looks now live ∷ rest) =
    (ltb 0 live || ltb now (last + limit)) && busy limit (if ltb 0 live then now else last) rest

look_down :
    (limit now live : ℕ) (watch : Watch)
    → watch.shutdown ≡ true
    → moment limit (looks now live) watch ≡ watch
unfolding moment look_once
look_down limit now live watch h = ground arith

look_at :
    (limit now live : ℕ) (watch : Watch)
    → (limit == 0) ≡ false
    → watch.shutdown ≡ false
    → moment limit (looks now live) watch ≡ look_once limit now live watch
unfolding moment
look_at limit now live watch n h = ground arith

stays_down :
    (limit : ℕ) (rest : List Moment) (watch : Watch)
    → watch.shutdown ≡ true
    → (moments limit rest watch).shutdown ≡ true
unfolding moments
stays_down limit [] watch h = h
stays_down limit (rpc now ∷ rest) watch h =
    stays_down limit rest (record watch { last_rpc = now }) h
stays_down limit (looks now live ∷ rest) watch h =
    ap (λ w. (moments limit rest w).shutdown) (look_down limit now live watch h)
    ∙ stays_down limit rest watch h

-- With a limit, the daemon exits exactly if some look sees no kernel at the limit or more after the
-- last RPC and the last look that saw one; RPCs and kernels in between keep it up.
pub idle_exit :
    (limit : ℕ) (rest : List Moment) (watch : Watch)
    → (limit == 0) ≡ false
    → watch.shutdown ≡ false
    → (moments limit rest watch).shutdown ≡ not (busy limit watch.last_rpc rest)
unfolding moments look_once
idle_exit limit [] watch n h = h
idle_exit limit (rpc now ∷ rest) watch n h =
    idle_exit limit rest (record watch { last_rpc = now }) n h
idle_exit limit (looks now live ∷ rest) watch n h =
    let after = λ (w : Watch). (moments limit rest w).shutdown in
    ap after (look_at limit now live watch n h) ∙ elim (Bool-cases (ltb 0 live)) [
      | inl alive ↦
          let used : look_once limit now live watch ≡ record watch { last_rpc = now } =
            ground arith in
          ap after used ∙ idle_exit limit rest (record watch { last_rpc = now }) n h ∙ ground arith
      | inr dead ↦ elim (Bool-cases (leb limit (now - watch.last_rpc))) [
        | inl idle ↦
            let down : look_once limit now live watch ≡ record watch { shutdown = true } =
              ground arith in
            ap after down
            ∙ stays_down limit rest (record watch { shutdown = true }) refl
            ∙ ground arith
        | inr recent ↦
            let same : look_once limit now live watch ≡ watch = ground arith in
            ap after same ∙ idle_exit limit rest watch n h ∙ ground arith
      ]
    ]
