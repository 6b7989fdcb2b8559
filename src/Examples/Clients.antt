-- ===== src/Examples/Clients.antt =====
-- The client library, the command line and the MCP server on concrete input.
use recurse.Base.{
  ℕ, ◌+◌, ◌≡◌, ◌↔◌, refl, false, none, some, List, [], ◌∷◌, codes, Text, All, arith, if◌then◌else◌,
  ltb, text_cmp,
}
use recurse.Base.Lines.{strip_prefix}
use recurse.Base.Fallible.{Fallible, returns, raises}
use recurse.Client.Sse.{ClientError, transport}
use recurse.Client.Spawn.{Surroundings, connect_or_spawn}
use recurse.Client.Spawn.Ends.{Outcome, Healthy, connect_or_spawn-ends}
use recurse.Cli.Args.{Args, no_args, parse_args, value_of}
use recurse.Cli.Args.Items.{Item, valued, joined, switch, word, IsItem, written, meaning}
use recurse.Cli.Args.Accepted.{parse_args_iff}
use recurse.Cli.Args.Values.{parse_args-written, words, last_value}

-- A daemon that is healthy three seconds after the start; a world is the time.
abbrev three_seconds : ℕ → Fallible ClientError (Unit {0})
three_seconds now =
    if ltb now 3000 then raises (transport (codes "connection refused")) else returns tt

abbrev slow_start : Surroundings
slow_start = record {
  World = ℕ;
  from_env = returns tt;
  health = λ now. (three_seconds now, now);
  spawn_daemon = λ now. (returns tt, now);
  now = λ now. now;
  sleep = λ duration now. now + duration;
}

connect_or_spawn-ends_example :
    (outcome : Outcome slow_start) × (connect_or_spawn slow_start
        (codes "http://127.0.0.1:18791")
        false
        68
        0
      ≡ some outcome)
    × Healthy slow_start outcome
connect_or_spawn-ends_example =
    connect_or_spawn-ends slow_start (λ w. omega arith) (λ w. omega arith)
      (codes "http://127.0.0.1:18791") false 0

-- `-c 1 --timeout=5 --full - --timeout 7`.
abbrev some_items : List Item
some_items =
    valued (codes "-c") (codes "1")
    ∷ joined (codes "--timeout") (codes "5")
    ∷ switch (codes "--full")
    ∷ word (codes "-")
    ∷ valued (codes "--timeout") (codes "7")
    ∷ []

some_items-IsItem : All IsItem some_items
unfolding text_cmp strip_prefix
some_items-IsItem = (refl, ((refl, refl), (refl, (refl, (refl, tt)))))

parse_args-written_example :
    (args : Args) × (parse_args (written some_items) ≡ returns args)
    × (args.positional ≡ words some_items)
    × ((flag : Text) → value_of args flag ≡ last_value none flag some_items)
parse_args-written_example = parse_args-written some_items some_items-IsItem

abbrev one_cell : Args
one_cell = record { positional = []; flags = (codes "-c", codes "1") ∷ [] }

parse_args_iff_example : (parse_args (codes "-c" ∷ codes "1" ∷ []) ≡ returns one_cell) ↔ (
    (items : List Item) × All IsItem items
    × (written items ≡ codes "-c" ∷ codes "1" ∷ [])
    × (meaning no_args items ≡ one_cell))
parse_args_iff_example = parse_args_iff (codes "-c" ∷ codes "1" ∷ []) one_cell
