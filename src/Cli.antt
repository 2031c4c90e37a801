-- ===== src/Cli.antt =====
-- src/cli_args.c and include/cli_args.h: the startup arguments.
pub mod Numbers
pub mod Rounds
pub mod Checked
use vless_core_cli.Prelude.{
  ℕ, zero, suc, ◌+◌, ◌-◌, ◌*◌, ◌/◌, ◌%◌, ◌^◌, ◌≤◌, ◌<◌, min, max, Bool, true, false, ◌&&◌, ◌||◌,
  not, List, [], ◌∷◌, ◌++◌, Option, none, some, ltb, leb, ◌==◌, if◌then◌else◌, get_elem?, get_or,
  set, take, drop, length, Bytes, size_max, add_size, sub_size, ◌≡◌, refl, sym, ap, ap₂, ◌∙◌, ◌≢◌,
  ◌↔◌, ◌⊎◌, inl, inr, arith, Bool-cases, Option-cases, append-nil, append_assoc, length-append,
  length-take, length-drop, bit, word16, word24, word32, map, take-append-drop, take_front,
  drop_front, long_enough, choose_left, choose_right, codes, same_bytes, contains, choose,
  choose_by, choose_option, option_by,
}

-- The options by their numbers in the source.
abbrev pub uri_id : ℕ
uri_id = 0

abbrev pub uri_fd_id : ℕ
uri_fd_id = 1

abbrev pub connection_fd_id : ℕ
connection_fd_id = 2

abbrev pub listen_id : ℕ
listen_id = 3

abbrev pub route_port_id : ℕ
route_port_id = 4

abbrev pub timeout_id : ℕ
timeout_id = 5

abbrev pub routing_id : ℕ
routing_id = 6

abbrev pub route_socket_id : ℕ
route_socket_id = 7

abbrev pub ips_id : ℕ
ips_id = 8

abbrev pub download_ips_id : ℕ
download_ips_id = 9

abbrev pub xray_version_id : ℕ
xray_version_id = 10

abbrev pub help_id : ℕ
help_id = 11

abbrev pub version_id : ℕ
version_id = 12

abbrev pub patch_id : ℕ
patch_id = 13

abbrev pub inspect_id : ℕ
inspect_id = 14

-- `option_t`
pub record Row : Type 0 where
  pub name : Bytes
  pub id : ℕ
  pub has_value : Bool
  pub minimum : ℕ
  pub maximum : ℕ

abbrev row : Bytes → ℕ → Bool → ℕ → ℕ → Row
row name id has_value minimum maximum = record {
  name = name;
  id = id;
  has_value = has_value;
  minimum = minimum;
  maximum = maximum;
}

-- `options`
unfoldable pub options : List Row
options =
    row (codes "--uri") uri_id true 0 0
    ∷ row (codes "--uri-fd") uri_fd_id true 0 2147483647
    ∷ row (codes "--connection-fd") connection_fd_id true 0 2147483647
    ∷ row (codes "--listen-port") listen_id true 1 65535
    ∷ row (codes "--route-control-port") route_port_id true 0 65535
    ∷ row (codes "--connect-timeout-ms") timeout_id true 1 300000
    ∷ row (codes "--routing") routing_id true 0 0
    ∷ row (codes "--route-control-socket") route_socket_id true 0 0
    ∷ row (codes "--server-ips") ips_id true 0 0
    ∷ row (codes "--xray-version") xray_version_id true 0 0
    ∷ row (codes "--download-server-ips") download_ips_id true 0 0
    ∷ row (codes "--inspect-config") inspect_id false 0 0
    ∷ row (codes "--help") help_id false 0 0
    ∷ row (codes "-h") help_id false 0 0
    ∷ row (codes "--version") version_id false 0 0
    ∷ row (codes "-v") version_id false 0 0
    ∷ row (codes "--openssl-patch-status") patch_id false 0 0
    ∷ []

abbrev pub find_row : Bytes → List Row → Option Row
find_row text [] = none
find_row text (r ∷ rs) =
    let rest = find_row text rs in if same_bytes text r.name then some r else rest

-- `lookup`; none is a null pointer.
unfoldable pub lookup_option : Option Bytes → Option Row
unfolding options
lookup_option none = none
lookup_option (some text) = find_row text options

-- What the loop of `number` refuses: no digit, or one that makes the number too large.
unfoldable pub refuses_digit : ℕ → ℕ → ℕ → Bool
refuses_digit maximum value c =
    not (leb 48 c && leb c 57)
    || ltb (maximum / 10) value
    || value == maximum / 10 && ltb (maximum % 10) (c - 48)

-- The loop of `number`.
unfoldable pub number_loop : ℕ → ℕ → Bytes → Option ℕ
unfolding refuses_digit
number_loop maximum value [] = some value
number_loop maximum value (c ∷ cs) =
    let rest = number_loop maximum ((value * 10 + (c - 48)) % 2 ^ 32) cs in
    if refuses_digit maximum value c then none else rest

-- `number`
unfoldable pub number : Bytes → ℕ → ℕ → Option ℕ
unfolding number_loop
number [] minimum maximum = none
number (c ∷ cs) minimum maximum = elim (number_loop maximum 0 (c ∷ cs)) [
  | none ↦ none
  | some value ↦ if ltb value minimum then none else some value
]

-- `core_cli_args_t`: the sources and the actions are numbered as in include/cli_args.h, and `source_fd` is
-- none for -1.
pub record Args : Type 0 where
  pub uri : Option Bytes
  pub routing : Option Bytes
  pub route_socket : Option Bytes
  pub server_ips : Option Bytes
  pub download_server_ips : Option Bytes
  pub xray_version : Option Bytes
  pub source : ℕ
  pub source_fd : Option ℕ
  pub listen_port : ℕ
  pub route_port : ℕ
  pub connect_timeout : ℕ
  pub action : ℕ

abbrev pub no_args : Args
no_args = record {
  uri = none;
  routing = none;
  route_socket = none;
  server_ips = none;
  download_server_ips = none;
  xray_version = none;
  source = 0;
  source_fd = none;
  listen_port = 0;
  route_port = 0;
  connect_timeout = 30000;
  action = 0;
}

-- The errors, most with the name of an option.
pub data Problem : Type 0 where
  unknown_argument : Problem
  duplicate : Bytes → Problem
  conflicting_actions : Bytes → Problem
  missing_value : Bytes → Problem
  invalid_timeout : Bytes → Problem
  invalid_parameter : Bytes → Problem
  conflicting_sources : Bytes → Problem
  conflicting_ips : Bytes → Problem
  inspection_only : Problem
  missing_source : Problem
  missing_port : Problem

-- What the loop keeps; `seen` has the numbers whose bits are set.
pub record Parse : Type 0 where
  pub args : Args
  pub seen : List ℕ

abbrev pub saw : ℕ → Parse → Bool
saw id p = contains id p.seen

-- A round of the loop.
pub data Round : Type 0 where
  rejected : Problem → Round
  parsed : Parse → List (Option Bytes) → Round

abbrev pub mark : ℕ → Args → Parse → Parse
mark id args p = record { args = args; seen = id ∷ p.seen }

abbrev pub action_of : ℕ → ℕ
action_of id =
    if id == help_id then 1 else if id == version_id then 2 else if id == inspect_id then 4 else 3

-- An option without a value.
unfoldable pub action_round : Row → Parse → List (Option Bytes) → Round
action_round r p rest =
    let args = p.args in
    if r.id == inspect_id && saw inspect_id p
    then rejected (duplicate r.name)
    else if r.id == inspect_id && not (args.action == 0) || args.action == 4
    then rejected (conflicting_actions r.name)
    else parsed
        (mark r.id
          (record args { action = if args.action == 0 then action_of r.id else args.action }) p)
        rest

-- One of the three sources of the URI.
unfoldable pub source_round : Row → Bytes → ℕ → Parse → List (Option Bytes) → Round
source_round r value number p rest =
    let args = p.args in
    let sourced = record args { source = r.id + 1 } in
    if not (args.source == 0)
    then rejected (conflicting_sources r.name)
    else if r.id == connection_fd_id && saw ips_id p
    then rejected (conflicting_ips r.name)
    else parsed
        (mark r.id
          (if r.id == uri_id
            then record sourced { uri = some value }
            else record sourced { source_fd = some number })
          p)
        rest

-- The `switch` over the other options.
unfoldable pub store : ℕ → Bytes → ℕ → Args → Args
store id value number args =
    if id == listen_id
    then record args { listen_port = number }
    else if id == route_port_id
    then record args { route_port = number }
    else if id == timeout_id
    then record args { connect_timeout = number }
    else if id == routing_id
    then record args { routing = some value }
    else if id == route_socket_id
    then record args { route_socket = some value }
    else if id == ips_id
    then record args { server_ips = some value }
    else if id == xray_version_id
    then record args { xray_version = some value }
    else if id == download_ips_id
    then record args { download_server_ips = some value }
    else args

unfoldable pub value_round : Row → Bytes → ℕ → Parse → List (Option Bytes) → Round
unfolding source_round store
value_round r value number p rest =
    if leb r.id connection_fd_id
    then source_round r value number p rest
    else if r.id == ips_id && p.args.source == 3
    then rejected (conflicting_ips r.name)
    else parsed (mark r.id (store r.id value number p.args) p) rest

-- The number of an option that has one; 0 for the others.
unfoldable pub option_number : Row → Bytes → Option ℕ
unfolding number
option_number r value = if r.maximum == 0 then some 0 else number value r.minimum r.maximum

-- An option with its value.
unfoldable pub given_round : Row → Parse → Option Bytes → List (Option Bytes) → Round
unfolding lookup_option option_number value_round
given_round r p none rest = rejected (missing_value r.name)
given_round r p (some value) rest = elim (lookup_option (some value)) [
  | some s ↦ rejected (missing_value r.name)
  | none ↦ elim (option_number r value) [
    | none ↦
        rejected (if r.id == timeout_id then invalid_timeout r.name else invalid_parameter r.name)
    | some parsed_number ↦ value_round r value parsed_number p rest
  ]
]

unfoldable pub option_round : Row → Parse → List (Option Bytes) → Round
unfolding given_round
option_round r p [] = rejected (if saw r.id p then duplicate r.name else missing_value r.name)
option_round r p (value ∷ rest) =
    if saw r.id p then rejected (duplicate r.name) else given_round r p value rest

unfoldable pub argument_round : Parse → Option Bytes → List (Option Bytes) → Round
unfolding lookup_option action_round option_round
argument_round p argument rest = elim (lookup_option argument) [
  | none ↦ rejected unknown_argument
  | some r ↦ if r.has_value then option_round r p rest else action_round r p rest
]

-- How parsing ends; `unfinished` is a loop with more rounds than its fuel.
pub data Answer : Type 0 where
  unfinished : Answer
  refused : Problem → Answer
  accepted : Args → Answer

abbrev allowed_with_inspect : List ℕ → Bool
allowed_with_inspect [] = true
allowed_with_inspect (id ∷ ids) = (id == uri_fd_id || id == inspect_id) && allowed_with_inspect ids

-- The checks behind the loop.
unfoldable pub check_args : Parse → Answer
check_args p =
    let args = p.args in
    if args.action == 4
    then if not (args.source == 2) || not (allowed_with_inspect p.seen)
      then refused inspection_only
      else accepted args
    else if args.action == 0 && args.source == 0
    then refused missing_source
    else if args.action == 0 && args.listen_port == 0
    then refused missing_port
    else accepted args

unfoldable pub parse_loop : ℕ → Parse → List (Option Bytes) → Answer
unfolding argument_round check_args
parse_loop n p [] = check_args p
parse_loop zero p (a ∷ rest) = unfinished
parse_loop (suc n) p (a ∷ rest) = elim (argument_round p a rest) [
  | rejected problem ↦ refused problem
  | parsed q more ↦ parse_loop n q more
]

-- `core_cli_args_parse`, on the arguments behind the name of the program.
unfoldable pub parse : List (Option Bytes) → Answer
unfolding parse_loop
parse arguments = parse_loop (length arguments) (record { args = no_args; seen = [] }) arguments

abbrev zeros : Bytes → Bytes
zeros text = map (λ c. 0) text

abbrev is_uri : Option Bytes → Bool
is_uri none = false
is_uri (some text) = same_bytes text (codes "--uri")

-- An argument behind `--uri`: what is not an option is erased.
unfoldable pub erased : Option Bytes → Option Bytes
unfolding lookup_option
erased none = none
erased (some text) = elim (lookup_option (some text)) [
  | none ↦ some (zeros text)
  | some r ↦ some text
]

abbrev scrub_from : Bool → List (Option Bytes) → List (Option Bytes)
scrub_from uri_before [] = []
scrub_from uri_before (a ∷ rest) =
    let argument = if uri_before then erased a else a in
    argument ∷ scrub_from (is_uri argument) rest

-- `core_cli_args_scrub`, on the arguments behind the name of the program.
unfoldable pub scrub : List (Option Bytes) → List (Option Bytes)
unfolding erased
scrub arguments = scrub_from false arguments
