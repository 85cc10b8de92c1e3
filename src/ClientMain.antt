-- ===== src/ClientMain.antt =====
-- src/client/main.cc: the prompt that reads commands from the terminal. A text is the list of its
-- bytes, and what is printed is a list of characters: the bytes of the texts, and the code points of
-- the frame around a list of keys. `none` is a fault, or a call that never returns.
pub mod Split
pub mod Frames
pub mod Prompt
use sqpkv.Prelude.{
  ℕ, zero, suc, ◌+◌, ◌-◌, ◌*◌, ◌/◌, Bool, true, false, Option, none, some, List, [], ◌∷◌, ◌++◌, max,
  length, replicate, ◌==◌, ltb, if◌then◌else◌, ◌>>=◌,
}
use sqpkv.Rocks.Keys.{is_prefix}
use sqpkv.Sockets.{Sockets}
use sqpkv.Network.{Network}
use sqpkv.Status.{Status, is_ok, is_err, is_eof}
use sqpkv.Connection

-- std::getline gives a last token only where it has a character.
abbrev pub last_token : List ℕ → List (List ℕ)
last_token [] = []
last_token (b ∷ tok) = (b ∷ tok) ∷ []

-- split(str, delimiter) from a token on of which `tok` has been read
pub tokens : ℕ → List ℕ → List ℕ → List (List ℕ)
tokens delimiter tok [] = last_token tok
tokens delimiter tok (c ∷ str) = elim (c == delimiter) [
  | true ↦ tok ∷ tokens delimiter [] str
  | false ↦ tokens delimiter (tok ++ (c ∷ [])) str
]

pub split : List ℕ → ℕ → List (List ℕ)
unfolding tokens
split str delimiter = tokens delimiter [] str

-- parts[i]: past the end of the vector is a fault.
pub part : List (List ℕ) → ℕ → Option (List ℕ)
part [] i = none
part (p ∷ parts) zero = some p
part (p ∷ parts) (suc i) = part parts i

-- What a line asks for.
pub data Command : Type 0 where
  get_all : List ℕ → Command
  get : List ℕ → Command
  put : List ℕ → List ℕ → Command
  delete : List ℕ → Command
  quit unsupported : Command

abbrev text_get_all : List ℕ
text_get_all = b'g' ∷ b'e' ∷ b't' ∷ b' ' ∷ b'a' ∷ b'l' ∷ b'l' ∷ b' ' ∷ []

abbrev text_get : List ℕ
text_get = b'g' ∷ b'e' ∷ b't' ∷ b' ' ∷ []

abbrev pub text_put : List ℕ
text_put = b'p' ∷ b'u' ∷ b't' ∷ b' ' ∷ []

abbrev text_delete : List ℕ
text_delete = b'd' ∷ b'e' ∷ b'l' ∷ b'e' ∷ b't' ∷ b'e' ∷ b' ' ∷ []

abbrev text_quit : List ℕ
text_quit = b'q' ∷ b'u' ∷ b'i' ∷ b't' ∷ []

-- The tests line.find(...) == 0 of the loop of main, with the parts that each branch takes.
pub command_of : List ℕ → Option Command
unfolding split part is_prefix
command_of line = elim (is_prefix text_get_all line) [
  | true ↦ do key ← part (split line b' ') 2; some (get_all key)
  | false ↦ elim (is_prefix text_get line) [
    | true ↦ do key ← part (split line b' ') 1; some (get key)
    | false ↦ elim (is_prefix text_put line) [
      | true ↦ do
        key ← part (split line b' ') 1
        value ← part (split line b' ') 2
        some (put key value)
      | false ↦ elim (is_prefix text_delete line) [
        | true ↦ do key ← part (split line b' ') 1; some (delete key)
        | false ↦ elim (is_prefix text_quit line) [ true ↦ some quit | false ↦ some unsupported ]
      ]
    ]
  ]
]

-- std::endl and the prompt behind it
abbrev prompt : List ℕ
prompt = b'>' ∷ b' ' ∷ []

-- Show(message)
abbrev pub show : List ℕ → List ℕ
show message = message ++ (10 ∷ prompt)

-- The longest item of a list
longest : List (List ℕ) → ℕ
longest [] = 0
longest (item ∷ items) = max (length item) (longest items)

-- printf("│ %*s%*s │\n", lpad, item, rpad, "") of ShowList: the first width is the least that the
-- item takes. (An item with a zero byte would be cut there.)
pub row : ℕ → List ℕ → List ℕ
row max_len item =
    let lpad = (max_len - length item) / 2 in
    let rpad = max_len - lpad - length item - 1 in
    0x2502
    ∷ b' '
    ∷ (replicate (lpad - length item) b' '
        ++ (item ++ (replicate rpad b' ' ++ (b' ' ∷ 0x2502 ∷ []))))

pub border : ℕ → ℕ → ℕ → List ℕ
border left max_len right = left ∷ (replicate max_len 0x2500 ++ (right ∷ []))

-- The rows of ShowList but the first, each below a line.
rows : ℕ → List (List ℕ) → List ℕ
unfolding row border
rows max_len [] = []
rows max_len (item ∷ items) =
    border 0x251C max_len 0x2524 ++ (10 ∷ (row max_len item ++ (10 ∷ rows max_len items)))

-- ShowList(list)
show_list : List (List ℕ) → List ℕ
unfolding longest rows
show_list [] = border 0x250C 2 0x2510 ++ (10 ∷ (border 0x2514 2 0x2518 ++ (10 ∷ prompt)))
show_list (item ∷ items) =
    let max_len = longest (item ∷ items) + 2 in
    border 0x250C max_len 0x2510
    ++ (10
        ∷ (row max_len item
            ++ (10 ∷ (rows max_len items ++ (border 0x2514 max_len 0x2518 ++ (10 ∷ prompt))))))

-- How a round of the loop of main ends, with what is printed: it goes on, or the program ends with its
-- exit status.
pub data Round : Type 0 where
  goes_on : List ℕ → Round
  ends : List ℕ → ℕ → Round

-- How far a run of the program has come, with what it has printed: it has not ended within its rounds,
-- or it has ended with its exit status.
pub data Session : Type 0 where
  prompting : List ℕ → Session
  ended : List ℕ → ℕ → Session

-- The characters of `Server is lost, exiting...`
abbrev text_lost : List ℕ
text_lost =
    b'S' ∷ b'e' ∷ b'r' ∷ b'v' ∷ b'e' ∷ b'r' ∷ b' ' ∷ b'i' ∷ b's' ∷ b' ' ∷ b'l' ∷ b'o' ∷ b's' ∷ b't'
    ∷ b',' ∷ b' ' ∷ b'e' ∷ b'x' ∷ b'i' ∷ b't' ∷ b'i' ∷ b'n' ∷ b'g' ∷ b'.' ∷ b'.' ∷ b'.' ∷ []

-- ShowStatus(status): on EOF it ends the program with EXIT_FAILURE.
show_status : Status → Round
unfolding is_err is_eof
show_status status = elim (is_err status) [
  | true ↦ goes_on (show status.message)
  | false ↦ elim (is_eof status) [ true ↦ ends (text_lost ++ (10 ∷ [])) 1 | false ↦ goes_on prompt ]
]

-- The characters of `Unsupported syntax`
abbrev pub text_unsupported : List ℕ
text_unsupported =
    b'U' ∷ b'n' ∷ b's' ∷ b'u' ∷ b'p' ∷ b'p' ∷ b'o' ∷ b'r' ∷ b't' ∷ b'e' ∷ b'd' ∷ b' ' ∷ b's' ∷ b'y'
    ∷ b'n' ∷ b't' ∷ b'a' ∷ b'x' ∷ []

module _ (S : Sockets) (reads sockfd : ℕ) where
  -- What a command does, with `reads` reads for each answer.
  pub run_command : Command → Sockets.World S → Option (Round × Sockets.World S)
  unfolding show_status is_ok show_list
  run_command (get_all key) w = do
    (status, keys, w') ← Connection.get_all S reads w sockfd key []
    some (if is_ok status then goes_on (show_list keys) else show_status status, w')
  run_command (get key) w = do
    (status, value, w') ← Connection.get S reads w sockfd key []
    some (if is_ok status then goes_on (show value) else show_status status, w')
  run_command (put key value) w = do
    (status, w') ← Connection.put S reads w sockfd key value
    some (show_status status, w')
  run_command (delete key) w = do
    (status, w') ← Connection.delete S reads w sockfd key
    some (show_status status, w')
  run_command quit w = some (ends [] 0, w)
  run_command unsupported w = some (goes_on (show text_unsupported), w)

  -- std::getline(std::cin, line): at the end of an input whose lines all end with a newline, the line is
  -- empty. (Without that newline the last line would stay in `line`, and would be done again for ever.)
  abbrev next_line : List (List ℕ) → List ℕ × List (List ℕ)
  next_line [] = ([], [])
  next_line (line ∷ lines) = (line, lines)

  -- while (!quit) of main, `fuel` rounds of it.
  pub main_loop : ℕ → List (List ℕ) → List ℕ → Sockets.World S → Option (Session × Sockets.World S)
  unfolding run_command command_of
  main_loop zero input out w = some (prompting out, w)
  main_loop (suc fuel) input out w = do
    let (line, rest) = next_line input
    command ← command_of line
    (round, w') ← run_command command w
    elim round [
      | ends shown code ↦ some (ended (out ++ shown) code, w')
      | goes_on shown ↦ main_loop fuel rest (out ++ shown) w'
    ]

-- The characters of `Welcome to SQPKV`
abbrev text_welcome : List ℕ
text_welcome =
    b'W' ∷ b'e' ∷ b'l' ∷ b'c' ∷ b'o' ∷ b'm' ∷ b'e' ∷ b' ' ∷ b't' ∷ b'o' ∷ b' ' ∷ b'S' ∷ b'Q' ∷ b'P'
    ∷ b'K' ∷ b'V' ∷ []

-- main with the flags server_addr and port. A StatusOr that is no error has a connection; its
-- `none` cannot happen.
unfoldable pub client_main :
    (S : Sockets)
    → Network S
    → ℕ
    → ℕ
    → List ℕ
    → ℕ
    → List (List ℕ)
    → Sockets.World S
    → Option (Session × Sockets.World S)
unfolding main_loop is_err
client_main S N reads fuel server_addr port input w = do
  let (connection, w1) = Connection.connect_to S N w server_addr port
  elim (is_err connection.status) [
    | true ↦ some (ended [] 1, w1)
    | false ↦ do sockfd ← connection.obj; main_loop S reads sockfd fuel input (show text_welcome) w1
  ]
