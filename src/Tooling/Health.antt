-- ===== src/Tooling/Health.antt =====
-- src/mergemate/interfaces/telegram/health.py: the readiness state and the handler's answer, and the probe
-- of src/mergemate/cli.py that reads it. `json` is a parameter.
use merge_mate.Base.{
  String, Option, none, some, ◌≡◌, refl, str_eq, eq_refl, if◌then◌else◌, Bool-cases, inl, inr,
}
use merge_mate.World.{Error}
use merge_mate.Cli.Shell.{returned}
use merge_mate.Cli.Probes.{Reply, opened, http_error, Probe, Decoder, probe_readiness_once}

pub record Readiness : Type 0 where
  pub status : String
  pub detail : String

-- `WebhookReadinessState`
abbrev pub starting : Readiness
starting = record { status = "starting"; detail = "" }

abbrev pub mark_ready : Readiness → Readiness
mark_ready r = record r { status = "ready" }

abbrev pub mark_stopping : Readiness → Readiness
mark_stopping r = record r { status = "stopping" }

abbrev pub mark_failed : String → Readiness → Readiness
mark_failed detail r = record { status = "failed"; detail = detail }

-- The payload: the status, and the detail of a failure.
pub record HealthPayload : Type 0 where
  pub status : String
  pub detail : Option String

unfoldable pub snapshot : Readiness → HealthPayload
snapshot r = record {
  status = r.status;
  detail = if str_eq r.status "failed" then some r.detail else none;
}

-- An answer: 404, or a code with the payload.
pub data Answer : Type 0 where
  not_found : Answer
  ok_payload unavailable : HealthPayload → Answer

-- `_resolve_status`
unfoldable pub resolve_status : String → String → Readiness → Answer
unfolding snapshot
resolve_status expected path r =
    if str_eq path expected
    then if str_eq r.status "ready" then ok_payload (snapshot r) else unavailable (snapshot r)
    else not_found

-- What `urlopen` makes of the answer: codes of errors are raised as HTTPError.
abbrev pub reply_of : (HealthPayload → String) → Answer → Reply
reply_of dumps not_found = http_error ""
reply_of dumps (ok_payload p) = opened (dumps p)
reply_of dumps (unavailable p) = http_error (dumps p)

-- If the JSON of a payload is read back with its status, a probe of the health endpoint's path is
-- ready exactly if the readiness state is, and has its status.
pub probe-resolve_status :
    (dumps : HealthPayload → String) (decode : Decoder) (no_json : Error) (path : String)
    (r : Readiness)
    → ((p : HealthPayload) → decode (dumps p) ≡ some (some p.status))
    → (p : Probe) × (probe_readiness_once decode no_json
          (reply_of dumps (resolve_status path path r))
        ≡ returned p)
      × (p.is_ready ≡ str_eq r.status "ready")
      × (p.status ≡ some r.status)
unfolding resolve_status probe_readiness_once
probe-resolve_status dumps decode no_json path r round =
    elim (Bool-cases (str_eq r.status "ready")) [
      | inl e ↦ rw (eq_refl path, e, round (snapshot r)) (_, refl, e, refl)
      | inr e ↦ rw (eq_refl path, e, round (snapshot r)) (_, refl, refl, refl)
    ]
