-- ===== src/Cli/Checked.antt =====
-- What the parser of src/cli_args.c accepts is in range and without conflicts.
use vless_core_cli.Prelude.{
  ℕ, zero, suc, ◌≤◌, ◌<◌, true, false, ◌&&◌, ◌||◌, not, List, [], ◌∷◌, Option, none, some, leb,
  ◌==◌, length, Bytes, ◌≡◌, refl, sym, ◌∙◌, arith, choose, choose_by, choose_option, option_by,
}
use vless_core_cli.Cli.{
  connection_fd_id, listen_id, route_port_id, timeout_id, routing_id, route_socket_id, ips_id,
  xray_version_id, download_ips_id, Row, lookup_option, Args, no_args, Problem, Parse, saw, Round,
  rejected, parsed, mark, store, value_round, option_number, given_round, option_round,
  argument_round, Answer, unfinished, refused, accepted, check_args, parse_loop, parse,
}
use vless_core_cli.Cli.Rounds.{
  is_row, IsParse, Fine, InRow, rejected-Fine, parsed-Fine, action_round-Fine, source_round-Fine,
  lookup_option-is_row, option_number-InRow,
}

-- The arguments after an option, from the bounds of its numbers.
stored :
    (id : ℕ) (args : Args) (p : Parse)
    → args.listen_port ≤ 65535
    → args.route_port ≤ 65535
    → (1 ≤ args.connect_timeout) × (args.connect_timeout ≤ 300000)
    → args.source ≡ p.args.source
    → args.server_ips ≡ p.args.server_ips
    → IsParse p
    → IsParse (mark id args p)
stored id args p listen route timeout source same v = record {
  listen = listen;
  route = route;
  timeout = timeout;
  source = omega (arith, source, v.source);
  apart = λ e. same ∙ v.apart (sym source ∙ e);
  ips = λ e. same ∙ v.ips (ground (arith, e));
}

store-IsParse :
    (r : Row) (value : Bytes) (n : ℕ) (p : Parse)
    → IsParse p
    → is_row r ≡ true
    → InRow r n
    → (r.id == ips_id && p.args.source == 3) ≡ false
    → IsParse (mark r.id (store r.id value n p.args) p)
unfolding store is_row
store-IsParse r value n p v ok within free =
    let P : Args → Type 0 = λ args. IsParse (mark r.id args p) in
    choose_by P (r.id == listen_id) _ _
      (λ e.
        stored r.id _ p (ground (arith, e, ok, within (ground (arith, e, ok)))) v.route v.timeout
          refl refl v)
      (λ e.
        choose_by P (r.id == route_port_id) _ _
          (λ f.
            stored r.id _ p v.listen (ground (arith, f, ok, within (ground (arith, f, ok))))
              v.timeout refl refl v)
          (λ f.
            choose_by P (r.id == timeout_id) _ _
              (λ g.
                let ranged = within (ground (arith, g, ok)) in
                stored r.id _ p v.listen v.route
                  (ground (arith, g, ok, ranged), ground (arith, g, ok, ranged)) refl refl v)
              (λ g.
                choose P (r.id == routing_id) _ _
                  (stored r.id _ p v.listen v.route v.timeout refl refl v)
                  (choose P (r.id == route_socket_id) _ _
                    (stored r.id _ p v.listen v.route v.timeout refl refl v)
                    (choose_by P (r.id == ips_id) _ _
                      (λ h. record {
                        listen = v.listen;
                        route = v.route;
                        timeout = v.timeout;
                        source = v.source;
                        apart = λ k. absurd (ground (arith, h, k, free));
                        ips = λ k. absurd (ground (arith, h, k));
                      })
                      (λ h.
                        choose P (r.id == xray_version_id) _ _
                          (stored r.id _ p v.listen v.route v.timeout refl refl v)
                          (choose P (r.id == download_ips_id) _ _
                            (stored r.id _ p v.listen v.route v.timeout refl refl v)
                            (stored r.id p.args p v.listen v.route v.timeout refl refl v))))))))

value_round-Fine :
    (r : Row) (value : Bytes) (n : ℕ) (p : Parse) (rest : List (Option Bytes))
    → IsParse p
    → is_row r ≡ true
    → InRow r n
    → Fine (length rest) (value_round r value n p rest)
unfolding value_round
value_round-Fine r value n p rest v ok within =
    let k = length rest in
    choose_by (Fine k) (leb r.id connection_fd_id) _ _ (λ e. source_round-Fine r value n p rest v e)
      (λ e.
        choose_by (Fine k) (r.id == ips_id && p.args.source == 3) _ _ (λ f. rejected-Fine k _)
          (λ f. parsed-Fine k _ rest (omega arith) (store-IsParse r value n p v ok within f)))

given_round-Fine :
    (r : Row) (p : Parse) (value : Option Bytes) (rest : List (Option Bytes))
    → IsParse p
    → is_row r ≡ true
    → Fine (length rest) (given_round r p value rest)
unfolding given_round
given_round-Fine r p none rest v ok = rejected-Fine (length rest) _
given_round-Fine r p (some value) rest v ok =
    let k = length rest in
    choose_option (Fine k) (lookup_option (some value)) _ _
      (option_by (Fine k) (option_number r value) _ _ (rejected-Fine k _)
        (λ n e. value_round-Fine r value n p rest v ok (option_number-InRow r value n ok e)))
      (λ s. rejected-Fine k _)

wider-Fine : (n m : ℕ) (r : Round) → n ≤ m → Fine n r → Fine m r
unfolding Fine
wider-Fine n m (rejected problem) le h = tt
wider-Fine n m (parsed q more) le h = (omega (arith, h.0, le), h.1)

option_round-Fine :
    (r : Row) (p : Parse) (rest : List (Option Bytes))
    → IsParse p
    → is_row r ≡ true
    → Fine (length rest) (option_round r p rest)
unfolding option_round
option_round-Fine r p [] v ok = rejected-Fine 0 _
option_round-Fine r p (value ∷ rest) v ok =
    let k = suc (length rest) in
    choose (Fine k) (saw r.id p) _ _ (rejected-Fine k _) (
      wider-Fine (length rest) k (given_round r p value rest) (omega arith)
        (given_round-Fine r p value rest v ok))

argument_round-Fine :
    (p : Parse) (argument : Option Bytes) (rest : List (Option Bytes))
    → IsParse p
    → Fine (length rest) (argument_round p argument rest)
unfolding argument_round
argument_round-Fine p argument rest v =
    let k = length rest in
    option_by (Fine k) (lookup_option argument) _ _ (rejected-Fine k _) (λ r e.
      choose (Fine k) r.has_value _ _
        (option_round-Fine r p rest v (lookup_option-is_row argument e))
        (action_round-Fine r p rest v))

-- What startup arguments that are accepted have.
pub record IsAccepted (args : Args) : Type 0 where
  pub listen : args.listen_port ≤ 65535
  pub route : args.route_port ≤ 65535
  pub timeout : (1 ≤ args.connect_timeout) × (args.connect_timeout ≤ 300000)
  pub source : args.source ≤ 3
  pub apart : args.source ≡ 3 → args.server_ips ≡ none
  pub runs : args.action ≡ 0 → (0 < args.source) × (0 < args.listen_port)
  pub inspects : args.action ≡ 4 → args.source ≡ 2

unfoldable pub Answers : Answer → Type 0
Answers unfinished = ⊥
Answers (refused problem) = Unit
Answers (accepted args) = IsAccepted args

refused-Answers : (problem : Problem) → Answers (refused problem)
unfolding Answers
refused-Answers problem = tt

accepted-Answers :
    (p : Parse)
    → IsParse p
    → (p.args.action ≡ 0 → (0 < p.args.source) × (0 < p.args.listen_port))
    → (p.args.action ≡ 4 → p.args.source ≡ 2)
    → Answers (accepted p.args)
unfolding Answers
accepted-Answers p v runs inspects = record {
  listen = v.listen;
  route = v.route;
  timeout = v.timeout;
  source = v.source;
  apart = v.apart;
  runs = runs;
  inspects = inspects;
}

check_args-Answers : (p : Parse) → IsParse p → Answers (check_args p)
unfolding check_args
check_args-Answers p v =
    choose_by Answers (p.args.action == 4) _ _
      (λ e.
        choose_by Answers (not (p.args.source == 2) || _) _ _ (λ f. refused-Answers _)
          (λ f. accepted-Answers p v (λ g. absurd (ground (arith, e, g))) (λ g. ground (arith, f))))
      (λ e.
        choose_by Answers (p.args.action == 0 && p.args.source == 0) _ _ (λ f. refused-Answers _)
          (λ f.
            choose_by Answers (p.args.action == 0 && p.args.listen_port == 0) _ _
              (λ g. refused-Answers _)
              (λ g.
                accepted-Answers p v (λ h. (ground (arith, f, h), ground (arith, g, h)))
                  (λ h. absurd (ground (arith, e, h))))))

round-Answers :
    (n : ℕ) (next : Parse → List (Option Bytes) → Answer) (r : Round)
    → ((q : Parse) (more : List (Option Bytes))
        → length more ≤ n
        → IsParse q
        → Answers (next q more))
    → Fine n r
    → Answers (elim r [ rejected problem ↦ refused problem | parsed q more ↦ next q more ])
unfolding Fine Answers
round-Answers n next (rejected problem) step h = tt
round-Answers n next (parsed q more) step h = step q more h.0 h.1

parse_loop-Answers :
    (n : ℕ) (p : Parse) (rest : List (Option Bytes))
    → IsParse p
    → length rest ≤ n
    → Answers (parse_loop n p rest)
unfolding parse_loop
parse_loop-Answers n p [] v le = check_args-Answers p v
parse_loop-Answers zero p (a ∷ rest) v le = absurd (omega arith)
parse_loop-Answers (suc n) p (a ∷ rest) v le =
    round-Answers (length rest) (λ q more. parse_loop n q more) (argument_round p a rest)
      (λ q more less u. parse_loop-Answers n q more u (omega (arith, less, le)))
      (argument_round-Fine p a rest v)

start-IsParse : IsParse (record { args = no_args; seen = [] })
start-IsParse = record {
  listen = omega arith;
  route = omega arith;
  timeout = (omega arith, omega arith);
  source = omega arith;
  apart = λ e. refl;
  ips = λ e. refl;
}

-- The arguments are parsed to an end, and those that are accepted have ports and a timeout in range,
-- addresses only beside a source that allows them, a source and a port to run with, and for an
-- inspection a descriptor as the source.
pub parse-Answers : (arguments : List (Option Bytes)) → Answers (parse arguments)
unfolding parse
parse-Answers arguments =
    parse_loop-Answers (length arguments) _ arguments start-IsParse (omega arith)
