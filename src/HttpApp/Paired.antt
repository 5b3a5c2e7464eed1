-- ===== src/HttpApp/Paired.antt =====
-- http_app.py with the device service behind its gate: what a run of requests does to the store of
-- credentials, and what a revoked device still gets.
use us_stock_helper.Prelude.{
  Text, text_eq, ◌≡◌, ap, ◌∙◌, subst, sym, Bool-cases, Bool, true, false, codes, Option, none, some,
  List, [], ◌∷◌, inl, inr, ◌⊎◌,
}
use us_stock_helper.DeviceAuth.Errors.{Result, ok, raised, schema_unsupported}
use us_stock_helper.DeviceAuth.Store.Rows.{Instant, DeviceStore}
use us_stock_helper.DeviceAuth.Credentials.Codes.{PyValue, text}
use us_stock_helper.DeviceAuth.Credentials.Tokens.{split_token}
use us_stock_helper.DeviceAuth.Credentials.Digests.{Digests}
use us_stock_helper.DeviceAuth.Service.Types.{
  DeviceAuthService, TokenVerification, authorized, revoked,
}
use us_stock_helper.DeviceAuth.Service.Operator.{revoke_device}
use us_stock_helper.DeviceAuth.Service.Device.{DeviceDraws, Decoy, verify_token, refused_token}
use us_stock_helper.DeviceAuth.Store.Calls.{run_calls}
use us_stock_helper.DeviceAuth.Service.Tokens.{revoked_forever}
use us_stock_helper.DeviceAuth.Service.Trace.{
  Runs, Runs-none, Runs-trans, redeem-IsTraced, verify-IsTraced,
}
use us_stock_helper.DeviceGate.{
  Payload, Attempt, attempt, not_an_attempt, bearer_token, read_attempt, refusal, redeem_attempt,
  redeem,
}
use us_stock_helper.DeviceGate.Answers.{service_authority}
use us_stock_helper.HttpApp.Config.{IpAddresses, AnalysisServerConfig, allows_client}
use us_stock_helper.HttpApp.Responses.{pairing_path, Response}
use us_stock_helper.HttpApp.Surface.{
  AnalysisService, Gate, HttpRequest, read_path, pair_device, redeem_body, admit_client, admit,
}
use us_stock_helper.HttpApp.Permitted.{HasNoReading, admit_needs_permission}

-- What stays the same while the server runs.
pub record Deployment (J W : Type 0) : Type 0 where
  pub ip : IpAddresses
  pub config : AnalysisServerConfig
  pub devices : DeviceAuthService
  pub digests : Digests
  pub decoy : Decoy
  pub loads : Text → Option Payload
  pub service : AnalysisService J W

-- A request with the time at which it is served, as the clock of each part tells it, and the random
-- draws that a pairing would use.
pub record Exchange : Type 0 where
  pub request : HttpRequest
  pub now : Instant
  pub as_of : Text
  pub draws : DeviceDraws

refused_first :
    (p : Result TokenVerification × DeviceStore) {t : DeviceStore}
    → (p ≡ (ok refused_token, t)) ⊎ (p ≡ (raised schema_unsupported, t))
    → (p.0 ≡ ok refused_token) ⊎ (p.0 ≡ raised schema_unsupported)
refused_first p (inl e) = inl (ap (λ q. q.0) e)
refused_first p (inr e) = inr (ap (λ q. q.0) e)

abbrev ok_or : TokenVerification → Result TokenVerification → TokenVerification
ok_or v (ok u) = u
ok_or v (raised e) = v

refused_is_unauthorized :
    (r : Result TokenVerification) (v : TokenVerification)
    → (r ≡ ok refused_token) ⊎ (r ≡ raised schema_unsupported)
    → r ≡ ok v
    → authorized v ≡ true
    → ⊥
unfolding authorized
refused_is_unauthorized r v (inl e) h good =
    let same = ap (ok_or refused_token) (sym e ∙ h) in
    cc (subst (λ u. authorized u ≡ true) {x = v} {y = refused_token} (sym same) good)
refused_is_unauthorized r v (inr e) h good = cc

module _ {J W : Type 0} where
  -- `DeviceGate.open(resolved.device_database)`
  abbrev pub gate_of : Deployment J W → Exchange → Gate
  gate_of d x = record {
    authority = service_authority d.devices d.digests d.decoy x.draws x.now;
    loads = d.loads;
  }

  -- `_dispatch`, with a gate
  unfoldable pub dispatch :
      Deployment J W → Exchange → DeviceStore → W → Option (Response J) × DeviceStore × W
  dispatch d x s w = admit d.ip d.config (some (gate_of d x)) d.service x.as_of x.request s w

  -- One request after the other.
  unfoldable pub dispatch_all : Deployment J W → List Exchange → DeviceStore → W → DeviceStore × W
  dispatch_all d [] s w = (s, w)
  dispatch_all d (x ∷ xs) s w = dispatch_all d xs (dispatch d x s w).1 (dispatch d x s w).2

  redeem-Runs :
      (d : Deployment J W) (x : Exchange) (a : Attempt) (client : Text) (s : DeviceStore)
      → Runs s (redeem_attempt (gate_of d x).authority a client s).1
  unfolding redeem_attempt
  redeem-Runs d x not_an_attempt client s = Runs-none s
  redeem-Runs d x (attempt code) client s =
      (redeem-IsTraced d.devices d.digests x.draws x.now code (text client)).at s

  redeem_body-Runs :
      (d : Deployment J W) (x : Exchange) (client : Text) (body : Option Text) (s : DeviceStore)
      → Runs s (redeem_body {J = J} (gate_of d x) client body s).1
  unfolding redeem_body redeem
  redeem_body-Runs d x client none s = Runs-none s
  redeem_body-Runs d x client (some body) s = redeem-Runs d x (read_attempt d.loads body) client s

  pair_device-Runs :
      (d : Deployment J W) (x : Exchange) (s : DeviceStore)
      → Runs s (pair_device {J = J} d.ip d.config.trust_proxy (some (gate_of d x)) x.request s).1
  unfolding pair_device
  pair_device-Runs d x s = elim (Bool-cases (text_eq x.request.method (codes "POST"))) [
    | inr other ↦ rw other (Runs-none s)
    | inl post ↦ rw post (redeem_body-Runs d x _ _ s)
  ]

  admit_client-Runs :
      (d : Deployment J W) (x : Exchange) (allowed : Option Bool) (s : DeviceStore) (w : W)
      → Runs s
          (admit_client d.ip allowed d.config.trust_proxy
            (some (gate_of d x))
            d.service
            x.as_of
            x.request
            s
            w).1
  unfolding admit_client read_path refusal
  admit_client-Runs d x none s w = Runs-none s
  admit_client-Runs d x (some false) s w = Runs-none s
  admit_client-Runs d x (some true) s w = elim (Bool-cases (text_eq x.request.path pairing_path)) [
    | inl pairing ↦ rw pairing (pair_device-Runs d x s)
    | inr other ↦ rw other (
        (verify-IsTraced d.digests d.decoy x.now (text (bearer_token x.request.authorization))).at
          s)
  ]

  dispatch-Runs :
      (d : Deployment J W) (x : Exchange) (s : DeviceStore) (w : W) → Runs s (dispatch d x s w).1
  unfolding dispatch admit
  dispatch-Runs d x s w =
      admit_client-Runs d x (allows_client d.ip d.config x.request.client_ip) s w

  -- Whatever requests arrive, the store of credentials that they leave is one that transactions of
  -- the device service make of the first: what holds of every run of these holds here.
  pub dispatch_all-Runs :
      (d : Deployment J W) (xs : List Exchange) (s : DeviceStore) (w : W)
      → Runs s (dispatch_all d xs s w).0
  unfolding dispatch_all
  dispatch_all-Runs d [] s w = Runs-none s
  dispatch_all-Runs d (x ∷ xs) s w =
      Runs-trans s (dispatch d x s w).1 (dispatch_all d (x ∷ xs) s w).0 (dispatch-Runs d x s w)
        (dispatch_all-Runs d xs (dispatch d x s w).1 (dispatch d x s w).2)

  gets_nothing :
      (d : Deployment J W) (x : Exchange) (t : DeviceStore) (v : W)
      → let r =
          (verify_token d.digests d.decoy x.now
            (text (bearer_token x.request.authorization))
            t).0 in
        (r ≡ ok refused_token) ⊎ (r ≡ raised schema_unsupported)
        → ((dispatch d x t v).2 ≡ v) × HasNoReading (dispatch d x t v).0
  unfolding dispatch
  gets_nothing d x t v refused =
      elim (admit_needs_permission d.ip d.config (some (gate_of d x)) d.service x.as_of x.request t
        v) [
          | inl nothing ↦ nothing
          | inr (allowed, read, (u, e, good)) ↦ absurd (refused_is_unauthorized _ u refused e good)
        ]

  -- Once `revoke_device` has answered that it revoked a device, no request with a token of that device
  -- makes the analysis service do anything or gets anything of it, whatever requests were served in
  -- between.
  pub revoked_reads_nothing :
      (d : Deployment J W) (id secret : Text) (revoked_at : Instant) (reason : PyValue)
      (between : List Exchange) (x : Exchange) (s : DeviceStore) (w v : W)
      → (revoke_device id revoked_at reason s).0 ≡ ok revoked
      → split_token (text (bearer_token x.request.authorization)) ≡ some (id, secret)
      → let t = (dispatch_all d between (revoke_device id revoked_at reason s).1 w).0 in
        let r = dispatch d x t v in (r.2 ≡ v) × HasNoReading r.0
  unfolding dispatch
  revoked_reads_nothing d id secret revoked_at reason between x s w v done names =
      let after = (revoke_device id revoked_at reason s).1 in
      let (calls, same) = dispatch_all-Runs d between after w in
      let refused =
        revoked_forever d.digests d.decoy id secret revoked_at x.now reason
          (text (bearer_token x.request.authorization)) s calls done names in
      subst (λ t. (((dispatch d x t v).2 ≡ v) × HasNoReading (dispatch d x t v).0))
        {x = run_calls calls after} same
        (gets_nothing d x (run_calls calls after) v (refused_first _ refused))
