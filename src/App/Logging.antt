-- ===== src/App/Logging.antt =====
-- app/src/logger.h and logger.cpp. The logging system of soralog is an argument, a text is a list of
-- bytes.
use polkadot_light_client.Common.{
  leb, ◌==◌, if◌then◌else◌, length, take, drop, All, Bytes, codes, bytes_eq, ℕ, zero, suc, ◌+◌, ◌-◌,
  ◌*◌, ◌≡◌, refl, ap, ◌∙◌, Bool, true, false, not, ◌&&◌, ◌||◌, Option, none, some, List, [], ◌∷◌,
  ◌++◌,
}

-- The levels of soralog that the program knows.
pub data Level : Type 0 where
  off critical error warn info verbose debug trace : Level

abbrev pub placeholder : Bytes
placeholder = codes "_PLCLOGFILE_"

abbrev pub simple_config : Bytes
simple_config =
    codes
      "\n# ----------------\nsinks:\n  - name: console\n    type: console\n    stream: stdout\n    color: true\n    thread: name\n    latency: 0\ngroups:\n  - name: main\n    sink: console\n    level: off\n    children:\n      - name: libp2p\n      - name: plc\n        level: info\n        children:\n        - name: core\n          children:\n            - name: chain\n            - name: network\n            - name: runner\n            - name: utils\n            - name: transaction\n        - name: app\n# ----------------\n  "

-- `multisink_config` up to the placeholder, and after its line.
abbrev pub before_file : Bytes
before_file =
    codes
      "\n# ----------------\nsinks:\n  - name: console\n    type: console\n    stream: stdout\n    color: true\n    thread: name\n    latency: 0\n  - name: file\n    type: file\n    path: "

abbrev pub after_file : Bytes
after_file =
    codes
      "\n    thread: name\n    capacity: 2048\n    buffer: 4194304\n    latency: 1000\n  - name: sink_to_everywhere\n    type: multisink\n    sinks:\n      - file\n      - console\ngroups:\n  - name: main\n    sink: sink_to_everywhere\n    level: off\n    children:\n      - name: libp2p\n      - name: plc\n        children:\n        - name: core\n          children:\n            - name: chain\n            - name: network\n            - name: runner\n            - name: utils\n            - name: transaction\n        - name: app\n# ----------------\n  "

abbrev pub multisink_config : Bytes
multisink_config = before_file ++ (placeholder ++ after_file)

-- One match of the pattern "(_PLCLOGFILE_)(.*)": its two groups, the text since the match before it,
-- and the text after it.
pub record Match : Type 0 where
  pub line_rest : Bytes
  pub prefix : Bytes
  pub suffix : Bytes

-- The whole match and its groups, by their numbers; there is no other group.
abbrev pub group : Match → ℕ → Bytes
group m n =
    if n == 0
    then placeholder ++ m.line_rest
    else if n == 1
    then placeholder
    else if n == 2
    then m.line_rest
    else []

-- Where the format of a replacement is read: in plain text, after a `$`, or after `$` and a digit.
pub data FormatMode : Type 0 where
  plain after_dollar : FormatMode
  after_digit : ℕ → FormatMode

abbrev pub is_digit : ℕ → Bool
is_digit c = leb b'0' c && leb c b'9'

-- What a character after `$` stands for, unless it is a digit.
abbrev pub escape : Match → ℕ → Bytes
escape m c =
    if c == b'$'
    then b'$' ∷ []
    else if c == b'&'
    then placeholder ++ m.line_rest
    else if c == b'`'
    then m.prefix
    else if c == 39
    then m.suffix
    else b'$' ∷ c ∷ []

-- `match_results::format`, with the escapes of ECMAScript.
unfoldable pub format : Match → FormatMode → Bytes → Bytes
format m plain [] = []
format m after_dollar [] = b'$' ∷ []
format m (after_digit n) [] = group m n
format m plain (c ∷ fmt) = elim (c == b'$') [
  | true ↦ format m after_dollar fmt
  | false ↦ c ∷ format m plain fmt
]
format m after_dollar (c ∷ fmt) = elim (is_digit c) [
  | true ↦ format m (after_digit (c - b'0')) fmt
  | false ↦ escape m c ++ format m plain fmt
]
format m (after_digit n) (c ∷ fmt) = elim (is_digit c) [
  | true ↦ group m (n * 10 + (c - b'0')) ++ format m plain fmt
  | false ↦
      group m n
      ++ elim (c == b'$') [ true ↦ format m after_dollar fmt | false ↦ c ∷ format m plain fmt ]
]

-- The text before the first placeholder, and the text from behind it on.
abbrev pub consed : ℕ → Option (Bytes × Bytes) → Option (Bytes × Bytes)
consed c none = none
consed c (some (before, after)) = some (c ∷ before, after)

unfoldable pub search : Bytes → Option (Bytes × Bytes)
unfolding take drop bytes_eq
search [] = none
search (c ∷ s) =
    if bytes_eq (take (length placeholder) (c ∷ s)) placeholder
    then some ([], drop (length placeholder) (c ∷ s))
    else consed c (search s)

-- What `.*` matches, and what it leaves: a dot is no line terminator.
unfoldable pub rest_of_line : Bytes → Bytes
rest_of_line [] = []
rest_of_line (c ∷ s) = if c == 10 || c == 13 then [] else c ∷ rest_of_line s

abbrev pub replaced : Bytes → (Bytes → Bytes) → Bytes → Option (Bytes × Bytes) → Bytes
replaced fmt more text none = text
replaced fmt more text (some (before, after)) =
    let line = rest_of_line after in
    let suffix = drop (length line) after in
    before
    ++ (format (record { line_rest = line; prefix = before; suffix = suffix }) plain fmt
        ++ more suffix)

-- `regex_replace`: every match in turn. Each takes the twelve characters of the placeholder at least,
-- so that there are no more rounds than characters.
unfoldable pub replace_loop : ℕ → Bytes → Bytes → Bytes
unfolding format search rest_of_line drop
replace_loop zero fmt text = text
replace_loop (suc rounds) fmt text = replaced fmt (replace_loop rounds fmt) text (search text)

abbrev pub regex_replace : Bytes → Bytes → Bytes
regex_replace text fmt = replace_loop (length text) fmt text

unfoldable pub config_of : Bytes → Bytes
unfolding replace_loop
config_of [] = simple_config
config_of (c ∷ log_file) = regex_replace multisink_config (c ∷ log_file)

pub record ConfigureResult : Type 0 where
  pub has_error : Bool
  pub message : Bytes

-- What the function does: it prints a message, exits with a code, or installs the logging system of
-- a configuration and sets the level of the group plc.
pub data LogAction : Type 0 where
  prints_to_cerr prints_to_cout : Bytes → LogAction
  exits_process : ℕ → LogAction
  sets_logging_system : Bytes → LogAction
  sets_level : Level → LogAction

abbrev pub print_message : ConfigureResult → List LogAction
print_message r =
    if length r.message == 0
    then []
    else (if r.has_error then prints_to_cerr r.message ∷ [] else prints_to_cout r.message ∷ [])

unfoldable pub prepare_logging : (Bytes → ConfigureResult) → Level → Bytes → List LogAction
unfolding config_of
prepare_logging configure log_level log_file =
    let r = configure (config_of log_file) in
    print_message r
    ++ (if r.has_error
        then exits_process 1 ∷ []
        else sets_logging_system (config_of log_file) ∷ sets_level log_level ∷ [])

-- The process goes on after it.
abbrev pub logging_works : (Bytes → ConfigureResult) → Bytes → Bool
logging_works configure log_file = not (configure (config_of log_file)).has_error

-- A format without `$` stands for itself.
format_plain :
    (m : Match) (fmt : Bytes) → All (λ c. (c == b'$') ≡ false) fmt → format m plain fmt ≡ fmt
unfolding format
format_plain m [] h = refl
format_plain m (c ∷ fmt) (e, h) = rw (e, format) (ap (◌∷◌ c) (format_plain m fmt h))

search_first : search multisink_config ≡ some (before_file, after_file)
unfolding search take drop bytes_eq
search_first = refl

search_more : search after_file ≡ none
unfolding search take drop bytes_eq
search_more = refl

-- A text with one match.
replace_once :
    (n : ℕ) (fmt text before after : Bytes)
    → search text ≡ some (before, after)
    → rest_of_line after ≡ []
    → search after ≡ none
    → replace_loop (suc (suc n)) fmt text
      ≡ before
        ++ (format (record { line_rest = []; prefix = before; suffix = after }) plain fmt ++ after)
unfolding replace_loop drop
replace_once n fmt text before after first line last = rw (first, line, last) refl

rest_of_line_first : rest_of_line after_file ≡ []
unfolding rest_of_line
rest_of_line_first = refl

-- The rounds of the loop for the configuration.
abbrev rounds : ℕ
rounds = length multisink_config - 2

-- A log file without `$` in its name becomes the path in the configuration, and nothing else changes.
pub config_of_lem :
    (c : ℕ) (name : Bytes)
    → All (λ d. (d == b'$') ≡ false) (c ∷ name)
    → config_of (c ∷ name) ≡ before_file ++ ((c ∷ name) ++ after_file)
unfolding config_of
config_of_lem c name h =
    replace_once rounds (c ∷ name) multisink_config before_file after_file search_first
      rest_of_line_first search_more
    ∙ ap (λ (f : Bytes). before_file ++ (f ++ after_file)) (format_plain _ (c ∷ name) h)
