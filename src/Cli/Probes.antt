-- ===== src/Cli/Probes.antt =====
-- src/mergemate/cli.py: the readiness probe. The request and `json.loads` are parameters, and `sleep` is the
-- time that passes.
pub mod Ends
use merge_mate.Base.{
  ℕ, zero, suc, ◌+◌, ◌-◌, ◌≤◌, String, Bool, true, false, not, ◌&&◌, Option, none, some, List, [],
  ◌∷◌, ◌≡◌, ◌≢◌, refl, if◌then◌else◌, leb, str_eq, text_append, Bool-cases, ◌⊎◌, inl, inr, arith,
}
use merge_mate.Base.Texts.{join}
use merge_mate.World.{Error}
use merge_mate.Cli.Shell.{
  Shell, Result, returned, exits, failed_with, running, Command, pure, exit, continue, echo_to,
  ◌>>=◌, ◌>>◌,
}

-- The fields of the Telegram settings that the probe reads.
pub record ProbeTarget : Type 0 where
  pub webhook : Bool
  pub healthcheck_enabled : Bool
  pub listen_host : String
  pub listen_port : String
  pub path : String

-- `_resolve_readiness_url`; the right side is the text of its ValueError.
unfoldable pub resolve_readiness_url : ProbeTarget → String ⊎ String
resolve_readiness_url t =
    if not t.webhook
    then inr "Readiness probing is only available when telegram.mode is webhook"
    else if not t.healthcheck_enabled
    then inr "Readiness probing is disabled because telegram.webhook_healthcheck_enabled is false"
    else inl (join "" ("http://" ∷ t.listen_host ∷ ":" ∷ t.listen_port ∷ t.path ∷ []))

-- What the request comes to: a body, HTTPError with its body, URLError with its reason, or another
-- exception.
pub data Reply : Type 0 where
  opened http_error url_error : String → Reply
  broken : Error → Reply

-- The body that is shown, the status of the payload, and whether it is ready.
pub record Probe : Type 0 where
  pub body : String
  pub status : Option String
  pub is_ready : Bool

abbrev pub is_status : String → Option String → Bool
is_status expected none = false
is_status expected (some status) = str_eq status expected

-- `json.loads`: the status of the payload, or none for a text that is no JSON.
abbrev pub Decoder : Type 0
Decoder = String → Option (Option String)

module _ (decode : Decoder) (no_json : Error) where
  -- `_probe_readiness_once`; a body that is no JSON raises, but not that of an HTTPError.
  abbrev pub opened_probe : String → Option (Option String) → Result Probe
  opened_probe body none = failed_with no_json
  opened_probe body (some status) =
      returned (record { body = body; status = status; is_ready = is_status "ready" status })

  abbrev pub error_status : Option (Option String) → Option String
  error_status none = some "http_error"
  error_status (some status) = status

  unfoldable pub probe_readiness_once : Reply → Result Probe
  probe_readiness_once (opened body) = opened_probe body (decode body)
  probe_readiness_once (http_error body) =
      returned (record { body = body; status = error_status (decode body); is_ready = false })
  probe_readiness_once (url_error reason) = returned (record {
    body = text_append "Readiness probe failed: " reason;
    status = some "connection_error";
    is_ready = false;
  })
  probe_readiness_once (broken e) = failed_with e

-- `_report_not_ready`
abbrev pub echo_timeout : Option String → Command (Unit {0})
echo_timeout none = pure tt
echo_timeout (some text) = echo_to true text

unfoldable pub report_not_ready : Probe → Option String → Command (Unit {0})
report_not_ready p timeout =
    echo_to (is_status "connection_error" p.status) p.body >> echo_timeout timeout >> exit 1

-- The options of the command, and what surrounds it; times are in one unit.
pub record Probing : Type 0 where
  pub wait : Bool
  pub max_wait : Option ℕ
  pub interval : ℕ
  pub request : Shell → Reply × Shell
  pub sleep : ℕ → Shell → Shell
  pub decode : Decoder
  pub no_json : Error
  pub timeout_text : ℕ → ℕ → String

module _ (o : Probing) where
  abbrev pub gives_up : Option ℕ → ℕ → Bool
  gives_up none elapsed = false
  gives_up (some most) elapsed = leb most elapsed

  abbrev pub late_text : Option ℕ → ℕ → Option String
  late_text none elapsed = none
  late_text (some most) elapsed = some (o.timeout_text elapsed most)

  unfoldable pub probed : ℕ → Command (Unit {0}) → Probe → Command (Unit {0})
  unfolding report_not_ready
  probed start next p s =
      let elapsed = s.monotonic - start in
      if p.is_ready
      then echo_to false p.body s
      else if not o.wait
      then report_not_ready p none s
      else if gives_up o.max_wait elapsed
      then report_not_ready p (late_text o.max_wait elapsed) s
      else next (o.sleep o.interval s)

  abbrev pub probe : Command Probe
  probe s = let (reply, t) = o.request s in (probe_readiness_once o.decode o.no_json reply, t)

  -- `probe_readiness`: the loop, for so many probes at most, that started at a time.
  unfoldable pub probe_loop : ℕ → ℕ → Command (Unit {0})
  unfolding probed probe_readiness_once
  probe_loop zero start s = (running, s)
  probe_loop (suc fuel) start s = (probe >>= probed start (probe_loop fuel start)) s

  unfoldable pub probe_readiness : ℕ → Command (Unit {0})
  unfolding probe_loop
  probe_readiness fuel s = probe_loop fuel s.monotonic s
