-- ===== src/Cli/Commands/Follow.antt =====
-- What `recurse events follow` prints, for `follow` of crates/cli/src/commands.rs.
use recurse.Base.{
  ◌≡◌, refl, sym, ap, ◌∙◌, Option, none, some, List, [], ◌∷◌, ◌++◌, map, append-nil, append_assoc,
  Text,
}
use recurse.Base.Fallible.{Fallible, returns, >>=-returns}
use recurse.Protocol.Target.{Target}
use recurse.Protocol.Event.{Event}
use recurse.Daemon.Sse.{SseFrame}
use recurse.Daemon.Sse.Claim.{events_in}
use recurse.Client.Sse.{ClientError}
use recurse.Client.Api.{DaemonApi, Stream}
use recurse.Client.Spawn.{error_text}
use recurse.Cli.Commands.Exec.{map_error-returns}
use recurse.Cli.Commands.{
  Machine, Shell, event_lines, ack_printed, follow_frame, follow_frames, follow, print, on_client,
}

module _ (machine : Machine) (api : DaemonApi) (target : Target) where
  lines-append :
      (xs ys : List Event)
      → event_lines machine api (xs ++ ys)
        ≡ event_lines machine api xs ++ event_lines machine api ys
  lines-append [] ys = refl
  lines-append (x ∷ xs) ys =
      rw (lines-append xs ys)
        (sym (append_assoc _ (event_lines machine api xs) (event_lines machine api ys)))

  ack_stdout :
      (ids : List Text) (s t : Shell api.World) (u : Unit {0})
      → ack_printed machine api target ids s ≡ (returns u, t)
      → t.stdout ≡ s.stdout
  ack_stdout [] s t u h = sym (ap (λ p. p.1.stdout) h)
  ack_stdout (id ∷ ids) s t u h =
      let (reply, s1, r, h1) = >>=-returns (on_client machine api (api.call _ _)) _ s t u h in
      sym (ap (λ p. p.1.stdout) h1) ∙ sym (ap (λ p. p.1.stdout) r)

  event_stdout :
      (of : Target) (events : List Event) (s t : Shell api.World) (u : Unit {0})
      → follow_frame machine api target (SseFrame.event of events) s ≡ (returns u, t)
      → t.stdout ≡ s.stdout ++ event_lines machine api events
  unfolding follow_frame
  event_stdout of events s t u h =
      ack_stdout (map (λ event. event.id) events)
        (print machine api (event_lines machine api events) s).1 t u h

  silent_stdout :
      (s t : Shell api.World) (u : Unit {0})
      → ◌≡◌ {A = Fallible Text (Unit {0}) × Shell api.World} (returns tt, s) (returns u, t)
      → t.stdout ≡ s.stdout
  silent_stdout s t u h = sym (ap (λ p. p.1.stdout) h)

  frames_stdout :
      (lost : Option ClientError) (frames : List SseFrame) (s t : Shell api.World) (u : Unit {0})
      → follow_frames machine api target lost frames s ≡ (returns u, t)
      → (lost ≡ none) × (t.stdout ≡ s.stdout ++ event_lines machine api (events_in frames))
  unfolding follow_frames events_in
  frames_stdout none [] s t u h = (refl, silent_stdout s t u h ∙ sym (append-nil s.stdout))
  frames_stdout (some error) [] s t u h = let no = ap (λ p. p.0) h in cc
  frames_stdout lost (SseFrame.event of events ∷ frames) s t u h =
      let (v, s1, f, h1) =
        >>=-returns (follow_frame machine api target (SseFrame.event of events))
          (λ _. follow_frames machine api target lost frames) s t u h in
      let rest = frames_stdout lost frames s1 t u h1 in
      (
        rest.0,
        rest.1
            ∙ ap (λ out. out ++ event_lines machine api (events_in frames))
                (event_stdout of events s s1 v f)
            ∙ append_assoc s.stdout (event_lines machine api events)
                (event_lines machine api (events_in frames))
            ∙ ap (λ out. s.stdout ++ out) (sym (lines-append events (events_in frames))),
      )
  frames_stdout lost (SseFrame.subscribed of ∷ frames) s t u h =
      let (v, s1, f, h1) =
        >>=-returns (follow_frame machine api target (SseFrame.subscribed of))
          (λ _. follow_frames machine api target lost frames) s t u h in
      let rest = frames_stdout lost frames s1 t u h1 in
      (
        rest.0,
        rest.1
            ∙ ap (λ out. out ++ event_lines machine api (events_in frames))
                (silent_stdout s s1 v (unfold follow_frame in f)),
      )
  frames_stdout lost (SseFrame.heartbeat at ∷ frames) s t u h =
      let (v, s1, f, h1) =
        >>=-returns (follow_frame machine api target (SseFrame.heartbeat at))
          (λ _. follow_frames machine api target lost frames) s t u h in
      let rest = frames_stdout lost frames s1 t u h1 in
      (
        rest.0,
        rest.1
            ∙ ap (λ out. out ++ event_lines machine api (events_in frames))
                (silent_stdout s s1 v (unfold follow_frame in f)),
      )

  -- If `follow` ends without an error, so did the stream that it subscribed to, and what it has
  -- printed is a line for each event of the stream's frames, in their order.
  pub follow_prints :
      (s t : Shell api.World) (u : Unit {0})
      → follow machine api target s ≡ (returns u, t)
      → (stream : Stream) × ((api.subscribe target s.world).0 ≡ returns stream)
        × (stream.lost ≡ none)
        × (t.stdout ≡ s.stdout ++ event_lines machine api (events_in stream.frames))
  unfolding follow
  follow_prints s t u h =
      let (stream, s1, o, h1) =
        >>=-returns (on_client machine api (api.subscribe target))
          (λ stream. follow_frames machine api target stream.lost stream.frames) s t u h in
      let rest = frames_stdout stream.lost stream.frames s1 t u h1 in
      (
        stream,
        map_error-returns error_text (api.subscribe target s.world).0 stream (ap (λ p. p.0) o),
        rest.0,
        rest.1
            ∙ ap (λ out. out ++ event_lines machine api (events_in stream.frames))
                (sym (ap (λ p. p.1.stdout) o)),
      )
