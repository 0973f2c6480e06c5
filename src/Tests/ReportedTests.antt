-- ===== src/Tests/ReportedTests.antt =====
-- Two nodes at the order "s 1 9", and a server at the script of the test client and at two statuses in
-- one read, on fixed-point numbers.
use scdtr.Prelude.{
  ℕ, ◌≡◌, refl, true, false, some, List, [], ◌∷◌, ◌++◌, map, arith, replicate, All, length,
  get_elem?,
}
use scdtr.Prelude.Int.{pos}
use scdtr.Float.Milli.{Milli, milli_float, Milli-IsFloat}
use scdtr.Text.{is_space, words, words_from, stoi, atoi}
use scdtr.Board.{high_lux}
use scdtr.Board.Main.{
  Node, Outcome, control, communication, setup, complete, do_consensus, update_state,
  update_messages, send_status,
}
use scdtr.Board.Main.Line.{CommandLine, read_line}
use scdtr.Board.Consensus.{iterations, solve}
use scdtr.Board.Consensus.Joint.{Solver, Joint}
use scdtr.Board.Consensus.Joint.Together.{together, copies_zero, copies_one, joint_reaches}
use scdtr.Server.System.{
  System, reset, get_lux_reference, get_lux_lower_bound, get_lux_external, get_occupancy,
}
use scdtr.Server.System.Invariant.{IsWellFormed}
use scdtr.Server.System.Timeline.{feed}
use scdtr.Server.Request.{Streams, reply, ack_text, with_crnl, valid_id, parse_request}
use scdtr.Server.Request.Sound.{IsFitting}
use scdtr.Server.System.Feed.{received, handle_read}
use scdtr.Telemetry.{Status, sent}
use scdtr.Telemetry.Coalesced.{handle_read_coalesced}
use scdtr.TestClient.{set_text, script, played, Served, serve}
use scdtr.TestClient.Script.{script_served}
use scdtr.Network.{Network, command, round, reported, reported_solving}
use scdtr.Network.Views.{IsRead, is_due, reported_solving-small}
use scdtr.Network.Solved.{solver, solved}
use scdtr.Network.Reported.{IsOrder, IsSteady, with_order, order_reported}

abbrev junk : List ℕ
junk = replicate 32 1

abbrev empty_outcome : Outcome Milli
empty_outcome = record { k = []; o = pos 0; solution = pos 0; completions = []; now = 0 }

abbrev server : System Milli
server = record {
  nodes = 2;
  sample_period = pos 1000;
  start = 0;
  entries = [] ∷ [] ∷ [];
  lux_lower_bound = pos 0 ∷ pos 0 ∷ [];
  lux_external = pos 0 ∷ pos 0 ∷ [];
  occupancy = false ∷ false ∷ [];
  i2c_buffer = replicate 1024 0;
}

server-IsWellFormed : IsWellFormed server
server-IsWellFormed = record {
  entries_length = refl;
  lower_bound_length = refl;
  external_length = refl;
  occupancy_length = refl;
  buffer_length = refl;
}

abbrev streams : Streams
streams = record { timestamps = 0 ∷ 0 ∷ []; flags = false ∷ false ∷ false ∷ false ∷ [] }

abbrev line : CommandLine
line = record { cmd_buffer = replicate 30 0; offset = 0 }

abbrev request : List ℕ
request = b's' ∷ b' ' ∷ b'1' ∷ b' ' ∷ b'9' ∷ []

request-IsOrder : IsOrder {F = Milli} 2 request (b'1' ∷ []) (b'9' ∷ []) b'1' 1 (pos 9) high_lux
unfolding words words_from is_space stoi valid_id atoi
request-IsOrder = record {
  split_server = refl;
  split_master = refl;
  one_digit = refl;
  known = refl;
  small = omega arith;
  number = refl;
  defined = refl;
  bound = refl;
  bound_defined = refl;
  one_line = (refl, (refl, (refl, (refl, (refl, tt)))));
  text = (refl, (refl, (refl, (refl, (refl, tt)))));
  some_char = omega arith;
  short = omega arith;
}

abbrev running : ℕ → Node Milli
running id = record {
  shared = record {
    dev_id = id;
    reset = false;
    changed = false;
    ref = pos 33000;
    lower_bound = pos 33000;
    occupancy = false;
    distributed = true;
  };
  k_i = pos 1000 ∷ pos 2000 ∷ [];
  ext = pos 5000;
  lux = pos 34000;
  out = pos 80000;
  controller = (setup id 0).controller;
  state = control;
  handler = communication;
  start_millis = 500;
  last_millis = 100;
}

running-IsSteady : (id : ℕ) → IsSteady id (running id)
running-IsSteady id = record {
  identity = refl;
  controlling = refl;
  quiet = refl;
  mode = refl;
  listening = refl;
}

abbrev steady : Network Milli
steady = record { master = running 0; other = running 1 }

abbrev ordered_net : Network Milli
ordered_net = with_order steady 1 high_lux

abbrev solver0 : Solver Milli
solver0 = solver 0 ordered_net.master

abbrev solver1 : Solver Milli
solver1 = solver 1 ordered_net.other

abbrev solvers : Solver Milli × Solver Milli
solvers = together solver0 solver1 iterations

solvers-Joint : Joint junk solver0 solver1 iterations solvers.0 solvers.1
solvers-Joint =
    joint_reaches Milli-IsFloat junk refl ordered_net.master.lower_bound
      ordered_net.other.lower_bound ordered_net.master.ext ordered_net.other.ext
      ordered_net.master.k_i ordered_net.other.k_i iterations

-- A round in which each node calls `onComplete` twice, the first time when a status is due.
abbrev solving_outcome : Outcome Milli
solving_outcome = record empty_outcome { completions = 1000 ∷ 1010 ∷ [] }

-- What the server reads while the nodes solve.
abbrev during : List (ℕ × List ℕ)
during =
    reported_solving 760 ordered_net.master (solved ordered_net.master solvers.0 solving_outcome)
    ++ reported_solving 770 ordered_net.other (solved ordered_net.other solvers.1 solving_outcome)

All-append : (xs ys : List (ℕ × List ℕ)) → All IsRead xs → All IsRead ys → All IsRead (xs ++ ys)
All-append [] ys h h' = h'
All-append (x ∷ xs) ys (h, hs) h' = (h, All-append xs ys hs h')

-- One status of either node.
length-during : length during ≡ 2
unfolding update_messages complete send_status
length-during = refl

during-IsRead : All IsRead during
during-IsRead =
    All-append _ _
      (reported_solving-small 760 ordered_net.master
        (solved ordered_net.master solvers.0 solving_outcome))
      (reported_solving-small 770 ordered_net.other
        (solved ordered_net.other solvers.1 solving_outcome))

abbrev round_net : Network Milli
round_net =
    round ordered_net (solved ordered_net.master solvers.0 solving_outcome)
      (solved ordered_net.other solvers.1 solving_outcome)

due0 : is_due round_net.master 2000 ≡ true
unfolding round update_state do_consensus complete send_status
due0 = refl

due1 : is_due round_net.other 2000 ≡ true
unfolding round update_state do_consensus complete send_status
due1 = refl

order_reported_example :
    let r = read_line line (with_crnl request) in
    let net' =
      round ordered_net
        (solved ordered_net.master solvers.0 solving_outcome)
        (solved ordered_net.other solvers.1 solving_outcome) in
    let s' =
      feed server (during ++ (reported 800 net'.master 2000 ++ reported 850 net'.other 2000)) in
    (parse_request server streams request 5
      ≡ some (record (reply server streams ack_text) { serial = with_crnl request ∷ [] }))
    × (r.found ≡ true)
    × (command steady r.line.cmd_buffer ≡ some ordered_net)
    × (get_lux_reference s' 0
        ≡ (solve 0
            (pos 33000)
            (pos 1000 ∷ pos 2000 ∷ [])
            (pos 5000)
            (copies_zero solver0 solver1 iterations)).0)
    × (get_lux_reference s' 1
        ≡ (solve 1 high_lux
            (pos 1000 ∷ pos 2000 ∷ [])
            (pos 5000)
            (copies_one solver0 solver1 iterations)).0)
    × (get_lux_lower_bound s' 1 ≡ high_lux)
    × (get_occupancy s' 1 ≡ true)
order_reported_example =
    order_reported Milli-IsFloat junk server streams steady line request (b'1' ∷ []) (b'9' ∷ [])
      b'1' 1 5 (pos 9) high_lux solvers.0 solvers.1 solving_outcome solving_outcome during 800 850
      2000 2000 request-IsOrder server-IsWellFormed refl refl refl (running-IsSteady 0)
      (running-IsSteady 1) refl solvers-Joint (due0, due1) during-IsRead

server-IsFitting : IsFitting server.nodes streams
server-IsFitting = record { timestamps_length = refl; flags_length = refl }

script_served_example :
    (o : Served Milli) × (serve server streams (played (λ i. false) 0 700 script) ≡ some o)
    × (reset server 700 ≡ some o.system)
    × (o.serial
        ≡ map with_crnl (
            (b'r' ∷ [])
            ∷ set_text b'0' b'1'
            ∷ set_text b'1' b'1'
            ∷ set_text b'0' b'0'
            ∷ set_text b'1' b'0'
            ∷ []))
    × (o.responses ≡ ack_text ∷ ack_text ∷ ack_text ∷ ack_text ∷ ack_text ∷ [] ∷ [])
    × (o.saved ≡ true)
script_served_example = script_served server streams 700 server-IsWellFormed server-IsFitting refl

abbrev status : ℕ → Status Milli
status id = record {
  dev_id = id;
  dest = 0;
  lux = pos 34000;
  duty_cycle = pos 400;
  lower_bound = pos 33000;
  ext = pos 5000;
  ref = pos 40000;
  occupancy = true;
}

handle_read_coalesced_example :
    let s' = handle_read server 800 (sent (status 0) ++ (sent (status 1) ++ [])) in
    (s' ≡ record (handle_read server 800 (sent (status 0))) {
      i2c_buffer = received (sent (status 0) ++ (sent (status 1) ++ [])) server.i2c_buffer;
    })
    × (get_elem? s'.entries 1 ≡ get_elem? server.entries 1)
    × (get_lux_lower_bound s' 1 ≡ get_lux_lower_bound server 1)
    × (get_lux_external s' 1 ≡ get_lux_external server 1)
    × (get_occupancy s' 1 ≡ get_occupancy server 1)
handle_read_coalesced_example =
    handle_read_coalesced Milli-IsFloat server 800 (status 0) (status 1) [] server-IsWellFormed
      (omega arith) (λ e. omega (arith, e))
