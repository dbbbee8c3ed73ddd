-- ===== src/Main/Cli.antt =====
-- src/main.rs: the lines that a user types. A line is its code points; `trim`, `splitn` and `as_bytes` are
-- the standard library's.
use p2p_pbft.Base.{
  ℕ, ◌+◌, ◌/◌, ◌%◌, ◌≡◌, ◌≢◌, refl, ap, ◌∙◌, List, [], ◌∷◌, ◌++◌, Bool, true, false, ◌&&◌, ◌||◌,
  Option, none, some, leb, ltb, ◌==◌, if◌then◌else◌, same, Bytes, bytes_discrete, ℕ_discrete,
}
use p2p_pbft.Format.{text}
use p2p_pbft.Message.{NodeId, Request}
use p2p_pbft.Node.{request_new}

abbrev pub Text : Type 0
Text = List ℕ

-- The code points with the Unicode property White_Space.
abbrev pub is_whitespace : ℕ → Bool
is_whitespace c =
    (leb 9 c && leb c 13)
    || c == 32
    || c == 0x85
    || c == 0xA0
    || c == 0x1680
    || (leb 0x2000 c && leb c 0x200A)
    || c == 0x2028
    || c == 0x2029
    || c == 0x202F
    || c == 0x205F
    || c == 0x3000

abbrev pub is_empty : Text → Bool
is_empty [] = true
is_empty (c ∷ cs) = false

unfoldable pub trim_start : Text → Text
trim_start [] = []
trim_start (c ∷ cs) = let rest = trim_start cs in if is_whitespace c then rest else c ∷ cs

unfoldable pub trim_end : Text → Text
trim_end [] = []
trim_end (c ∷ cs) =
    let rest = trim_end cs in if is_empty rest && is_whitespace c then [] else c ∷ rest

unfoldable pub trim : Text → Text
trim line = trim_end (trim_start line)

-- `splitn(2, ' ')`: what stands before the first space, and what stands after it.
unfoldable pub split_space : Text → Text × Option Text
split_space [] = ([], none)
split_space (c ∷ cs) =
    let (first, second) = split_space cs in if c == 32 then ([], some cs) else (c ∷ first, second)

-- `as_bytes`: the UTF-8 encoding.
abbrev pub encode : ℕ → Bytes
encode c =
    if ltb c 0x80
    then c ∷ []
    else if ltb c 0x800
    then (0xC0 + c / 64) ∷ (0x80 + c % 64) ∷ []
    else if ltb c 0x10000
    then (0xE0 + c / 4096) ∷ (0x80 + c / 64 % 64) ∷ (0x80 + c % 64) ∷ []
    else (0xF0 + c / 262144) ∷ (0x80 + c / 4096 % 64) ∷ (0x80 + c / 64 % 64) ∷ (0x80 + c % 64) ∷ []

unfoldable pub as_bytes : Text → Bytes
as_bytes [] = []
as_bytes (c ∷ cs) = encode c ++ as_bytes cs

pub data Command : Type 0 where
  submit : Text → Command
  nothing submit_usage status peers help quit unknown : Command

abbrev submit_command : Option Text → Command
submit_command none = submit_usage
submit_command (some operation) = submit operation

unfoldable pub command_of : Text × Option Text → Command
command_of (name, argument) =
    if same name (text "submit") || same name (text "s")
    then submit_command argument
    else if same name (text "status") || same name (text "st")
    then status
    else if same name (text "peers") || same name (text "p")
    then peers
    else if same name (text "help") || same name (text "h")
    then help
    else if same name (text "quit") || same name (text "q") || same name (text "exit")
    then quit
    else unknown

unfoldable pub parse_line : Text → Command
parse_line line =
    let trimmed = trim line in
    if is_empty trimmed then nothing else command_of (split_space trimmed)

-- The request that is sent to the main loop, if the command is one.
unfoldable pub cli_request : ℕ → NodeId → Command → Option Request
cli_request millis node_id (submit operation) =
    some (request_new millis node_id (as_bytes operation))
cli_request millis node_id _ = none

abbrev pub Blank : Text → Type 0
Blank [] = Unit {0}
Blank (c ∷ cs) = (is_whitespace c ≡ true) × Blank cs

trim_start-Blank : (blank line : Text) → Blank blank → trim_start (blank ++ line) ≡ trim_start line
unfolding trim_start
trim_start-Blank [] line h = refl
trim_start-Blank (c ∷ cs) line (space, h) = rw (space) (trim_start-Blank cs line h)

trim_end-Blank : (blank : Text) → Blank blank → trim_end blank ≡ []
unfolding trim_end
trim_end-Blank [] h = refl
trim_end-Blank (c ∷ cs) (space, h) = rw (trim_end-Blank cs h, space) refl

trim_end-append-Blank : (line blank : Text) → Blank blank → trim_end (line ++ blank) ≡ trim_end line
unfolding trim_end
trim_end-append-Blank [] blank h = trim_end-Blank blank h
trim_end-append-Blank (c ∷ cs) blank h = rw (trim_end-append-Blank cs blank h) refl

append_not_empty : (front line : Text) → line ≢ [] → is_empty (front ++ line) ≡ false
append_not_empty [] [] ne = absurd (ne refl)
append_not_empty [] (c ∷ cs) ne = refl
append_not_empty (c ∷ cs) line ne = refl

-- Text before one that ends in no white space.
trim_end-append :
    (front line : Text)
    → trim_end line ≡ line
    → line ≢ []
    → trim_end (front ++ line) ≡ front ++ line
unfolding trim_end
trim_end-append [] line h ne = h
trim_end-append (c ∷ cs) line h ne =
    rw (trim_end-append cs line h ne, append_not_empty cs line ne) refl

-- A line that reads `submit`, a space and an operation that is not empty and does not end in white space,
-- with any white space before and after, is the command to submit just that operation; the white space
-- with which the operation begins is kept.
pub parse_line-submit :
    (front operation back : Text)
    → Blank front
    → Blank back
    → trim_end operation ≡ operation
    → operation ≢ []
    → parse_line (front ++ (text "submit " ++ (operation ++ back))) ≡ submit operation
unfolding parse_line trim trim_start split_space command_of bytes_discrete ℕ_discrete
parse_line-submit front operation back before after ends ne =
    let typed = text "submit " ++ operation in
    let trimmed : trim (front ++ (typed ++ back)) ≡ typed =
      ap trim_end (trim_start-Blank front (typed ++ back) before)
      ∙ (trim_end-append-Blank typed back after
          ∙ trim_end-append (text "submit ") operation ends ne) in
    ap (λ t. if is_empty t then nothing else command_of (split_space t)) trimmed
