-- ===== src/Tests/Prompts.antt =====
-- The start of the program and its log at concrete inputs.
use event_driven_tcp_chatroo.Base.{
  ◌≤◌, ◌≡◌, refl, true, false, none, some, [], ◌∷◌, ◌++◌, Bytes, codes, take,
}
use event_driven_tcp_chatroo.Server.{name_is_reserved}
use event_driven_tcp_chatroo.Console.{Console, read_word, read_int, ignore_line}
use event_driven_tcp_chatroo.Console.Words.{words}
use event_driven_tcp_chatroo.Startup.{
  line, ask_name, ask_server_port, ask_listen_port, choose_mode, server_mode,
}
use event_driven_tcp_chatroo.Startup.Names.{first_free, ask_name-first_free}
use event_driven_tcp_chatroo.Startup.Modes.{asked_again, choose_mode-never}
use event_driven_tcp_chatroo.Startup.Ports.{ask_server_port-bounds}
use event_driven_tcp_chatroo.Log.{
  off, info, client_tag, server_tag, Logger, default_level, logd, concat, undefined,
}
use event_driven_tcp_chatroo.Log.Levels.{last_level, set_levels, logd-set_levels}
use event_driven_tcp_chatroo.Log.Concat.{spaced, concat_lem}

abbrev typed : Bytes → Console
typed input = record { input = input; fail = false; eof = false; shown = [] }

-- A reserved name, then a name.
abbrev names : Console
names = typed (line "App bo" ++ line "1")

ask_name-first_free_example :
    (ask_name (codes "? ") 2 names).0 ≡ first_free (take 2 (words names.input))
ask_name-first_free_example = ask_name-first_free (codes "? ") 2 names (refl, (λ e. cc e))

takes_bo : (ask_name (codes "? ") 2 names).0 ≡ some (codes "bo")
unfolding ask_name read_word name_is_reserved
takes_bo = refl

takes_server_mode : (choose_mode (λ i. i) 5 (typed (line "7" ++ line " 1"))).0 ≡ some server_mode
unfolding choose_mode read_int
takes_server_mode = refl

-- A port that is too large is asked for again.
ports : Console
ports = typed (line "x" ++ line "65536" ++ line "080")

asks_again : (ask_server_port 3 ports).0 ≡ some 80
unfolding ask_server_port read_int ignore_line ports
asks_again = refl

ask_server_port-bounds_example : (1 ≤ 80) × (80 ≤ 65535)
ask_server_port-bounds_example = ask_server_port-bounds 3 ports asks_again

listens_anywhere : (ask_listen_port 1 (typed (line "65616"))).0 ≡ some 65616
unfolding ask_listen_port read_int
listens_anywhere = refl

choose_mode-never_example :
    let (mode, c) = choose_mode (λ i. 0) 9 (typed (line "server")) in
    (mode ≡ none) × (c.shown ≡ asked_again 9)
unfolding read_int
choose_mode-never_example = choose_mode-never (λ i. 0) 9 (typed (line "server")) (λ i. refl) refl

abbrev start : Logger
start = record { level = default_level; written = [] }

logd-set_levels_example :
    (logd client_tag info
      (codes "up")
      (set_levels ((client_tag, off) ∷ (server_tag, info) ∷ []) start)).written
    ≡ []
unfolding last_level
logd-set_levels_example =
    logd-set_levels client_tag info (codes "up") ((client_tag, off) ∷ (server_tag, info) ∷ []) start

concat_lem_example : concat true (codes "ab" ∷ codes "c" ∷ []) 2 4 ≡ undefined
unfolding spaced
concat_lem_example = concat_lem (codes "ab") (codes "c" ∷ []) 4
