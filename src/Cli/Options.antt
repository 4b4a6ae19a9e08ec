-- ===== src/Cli/Options.antt =====
-- What is read back from options: a number, and the options of the server in its child in the background.
use mathlib.Core.Option.{some-injective}
use baijimu_digital_employee.Base.{
  ◌≡◌, refl, ℕ, ◌≤◌, ◌<◌, Char, String, Bool, false, ◌||◌, Option, none, some, List, [], ◌∷◌, ok,
  lt→ltb, arith, and_then-eq-some, ok_or, or_else, unwrap_or, eq_iff, not, subst, guard-then,
  ok-injective, >>=-eq-ok, ◌>>=◌,
}
use baijimu_digital_employee.Text.{split_once, parse_uint}
use baijimu_digital_employee.Text.Laws.{parse_uint-to_decimal, parse_uint-le}
use baijimu_digital_employee.Json.Object
use baijimu_digital_employee.Process.{to_camel_case}
use baijimu_digital_employee.Cli.Arguments.{ParsedArgs, started, parse_args, value_of}
use baijimu_digital_employee.Cli.Settings.{
  is_unsupported, options_of, other_listen, extra_args_of, has_items, ServerOptions, Settings,
  default_listen, max_u16, server_options, child_args, port_of, timeout_of,
}

has_items-nil : (l : List String) → has_items l ≡ false → l ≡ []
has_items-nil [] h = refl
has_items-nil (a ∷ l) h = cc

ok_or-ok : (o : Option ℕ) (why : String) (n : ℕ) → ok_or o why ≡ ok n → o ≡ some n
ok_or-ok none why n h = cc
ok_or-ok (some m) why n h = cc

port_of-range :
    (configured : ℕ) (text : Option String) (n : ℕ)
    → (0 < configured) × (configured ≤ max_u16)
    → port_of configured text ≡ ok n
    → (0 < n) × (n ≤ max_u16)
port_of-range configured none n c h =
    subst (λ k. (0 < k) × (k ≤ max_u16)) (ok-injective configured n h) c
port_of-range configured (some text) n c h =
    let (m, e, k) = and_then-eq-some (parse_uint max_u16 text) _ (ok_or-ok _ _ n h) in
    ground (arith, parse_uint-le max_u16 text e, some-injective m n)

abbrev pub Reread : (Char → String) → Settings → (List String → String) → ServerOptions → Type 0
Reread upper settings print_list o =
    (parse_args upper (child_args print_list o) >>= server_options settings)
    ≡ ok (record o {
      request_timeout_ms = timeout_of settings (started "start").parsed;
      daemon = false;
    })

-- The child reads back a port and an address to listen on that are in their ranges.
child_options :
    (upper : Char → String) (settings : Settings) (print_list : List String → String)
    (o : ServerOptions)
    → settings.env "DIGITAL_EMPLOYEE_CONNECTOR_CODEX_ARGS" ≡ none
    → other_listen (settings.env "DIGITAL_EMPLOYEE_CONNECTOR_LISTEN") ≡ false
    → o.listen ≡ default_listen
    → o.extra_args ≡ []
    → 0 < o.port
    → o.port ≤ max_u16
    → Reread upper settings print_list o
unfolding server_options child_args parse_args to_camel_case split_once Object.insert Object.get
child_options upper settings print_list o free env listen extra lo hi =
    rw (extra, listen, free, env, parse_uint-to_decimal max_u16 o.port hi, lt→ltb 0 o.port lo) refl

or_false : (a b c : Bool) → (a || b || c) ≡ false → (a ≡ false) × (b ≡ false) × (c ≡ false)
or_false a b c h = ground arith

listen_default :
    (a b : Option String)
    → other_listen a ≡ false
    → other_listen b ≡ false
    → unwrap_or (or_else a b) default_listen ≡ default_listen
listen_default none none h k = refl
listen_default none (some v) h k = (eq_iff v default_listen).0 (ground arith)
listen_default (some v) b h k = (eq_iff v default_listen).0 (ground arith)

server_options-ok :
    (settings : Settings) (p : ParsedArgs) (o : ServerOptions)
    → (0 < settings.configured_port) × (settings.configured_port ≤ max_u16)
    → server_options settings p ≡ ok o
    → (extra : List String) × (port : ℕ) × (is_unsupported settings p extra ≡ false)
      × ((0 < port) × (port ≤ max_u16))
      × (options_of settings p extra port ≡ o)
unfolding server_options
server_options-ok settings p o range h =
    let (extra, e1, h1) = >>=-eq-ok (extra_args_of settings p) _ h in
    let (g, h2) = guard-then (not (is_unsupported settings p extra)) _ _ o h1 in
    let text = or_else (value_of p "port") (settings.env "DIGITAL_EMPLOYEE_CONNECTOR_PORT") in
    let (port, e2, h3) = >>=-eq-ok (port_of settings.configured_port text) _ h2 in
    (
      extra,
      port,
      ground arith,
      port_of-range settings.configured_port text port range e2,
      ok-injective (options_of settings p extra port) o h3,
    )

-- The options of `start` that are accepted are those that the child of `--daemon` reads back from its
-- arguments, in the same environment, except that the child does not go to the background again and that
-- its timeout is the environment's or the default: the timeout that was asked for is not passed on. The
-- environment sets no arguments for Codex, and the port of the manifest is in its range.
pub child_args-server_options :
    (upper : Char → String) (settings : Settings) (print_list : List String → String)
    (p : ParsedArgs) (o : ServerOptions)
    → settings.env "DIGITAL_EMPLOYEE_CONNECTOR_CODEX_ARGS" ≡ none
    → (0 < settings.configured_port) × (settings.configured_port ≤ max_u16)
    → server_options settings p ≡ ok o
    → Reread upper settings print_list o
unfolding server_options
child_args-server_options upper settings print_list p o free range h =
    let (extra, port, g, (lo, hi), e) = server_options-ok settings p o range h in
    let (listen, env, none_extra) = or_false _ _ _ g in
    subst (λ o. Reread upper settings print_list o) e
      (child_options upper settings print_list (options_of settings p extra port) free env
        (listen_default (value_of p "listen") _ listen env) (has_items-nil extra none_extra) lo hi)
