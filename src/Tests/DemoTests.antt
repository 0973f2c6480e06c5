-- ===== src/Tests/DemoTests.antt =====
-- The bench programs, a saved file and the accept of clients.
use scdtr.Prelude.{ℕ, ◌+◌, ◌≡◌, refl, true, false, some, List, [], ◌∷◌, ◌++◌, arith, map}
use scdtr.Prelude.Int.{pos}
use scdtr.Float.Milli.{Milli, milli_float}
use scdtr.Text.{words, words_from, c_string, same_text}
use scdtr.Demo.Cli.{Board, set_word, output_word, output_set, process_tokens, process_command}
use scdtr.Demo.Cli.Values.{IsAnswered, initial, process_command-IsAnswered}
use scdtr.Demo.Sweep.{volt, row_at, sweep}
use scdtr.Demo.Sweep.Rows.{duties, sweep_lem}
use scdtr.Server.System.{Entry}
use scdtr.Server.System.Saved.{lines}
use scdtr.Server.System.Saved.Values.{is_comma, is_newline, fields, lines-fields}
use scdtr.Server.Session.Lifecycle.{start}
use scdtr.Server.Accept.{TcpServer, accept_all, accept_all-error}

-- "set output 9".
abbrev board : Board Milli
board = record {
  reference = pos 0;
  output = pos 0;
  line = record {
    cmd_buffer = set_word ++ (b' ' ∷ (output_word ++ (b' ' ∷ b'9' ∷ 0 ∷ [])));
    offset = 0;
  };
  cycles = 3;
}

answered : process_command board ≡ some (record board { output = pos 9000 }, output_set (pos 9000))
unfolding process_command process_tokens words words_from c_string same_text
answered = refl

output_command : IsAnswered (record board { output = pos 9000 }, output_set (pos 9000))
output_command =
    process_command-IsAnswered board (record board { output = pos 9000 }, output_set (pos 9000))
      answered (record { reference = initial refl; output = initial refl })

swept :
    sweep {F = Milli} (λ out i. out + i) 4 10 35 10 2 volt
    ≡ some (map (row_at (λ out i. out + i) 2 volt) (duties 3 10 10))
swept = sweep_lem (λ out i. out + i) 2 10 35 10 2 volt (omega arith) (omega arith)

abbrev entry : Entry Milli
entry = record {
  timestamp = 10;
  lux = pos 40000;
  duty_cycle = pos 1000;
  lux_reference = pos 0;
  c_err = pos 0;
  c_var = pos 0;
}

abbrev show : Milli → List ℕ
show x = b'7' ∷ b'.' ∷ b'5' ∷ []

lines-fields_example :
    map (words is_comma) (words is_newline (lines show (entry ∷ entry ∷ [])))
    ≡ map (fields show) (entry ∷ entry ∷ [])
lines-fields_example = lines-fields show (entry ∷ entry ∷ []) (λ x. record {
  some_char = omega arith;
  no_comma = (refl, (refl, (refl, tt)));
  no_newline = (refl, (refl, (refl, tt)));
})

abbrev server : TcpServer Milli
server = record {
  system = record {
    nodes = 1;
    sample_period = pos 1000;
    start = 0;
    entries = [] ∷ [];
    lux_lower_bound = pos 0 ∷ [];
    lux_external = pos 0 ∷ [];
    occupancy = false ∷ [];
    i2c_buffer = [];
  };
  sessions = [];
  accepting = true;
}

accepted :
    accept_all server (false ∷ false ∷ true ∷ false ∷ [])
    ≡ record server { sessions = start server.system ∷ start server.system ∷ []; accepting = false }
accepted = accept_all-error server 2 (false ∷ []) refl
