-- ===== src/DeviceAuth/Service/History.antt =====
-- service.py: histories of requests.
use us_stock_helper.Prelude.{Text, List, [], ◌∷◌}
use us_stock_helper.DeviceAuth.Store.Rows.{Instant, DeviceStore}
use us_stock_helper.DeviceAuth.Credentials.Codes.{PyValue}
use us_stock_helper.DeviceAuth.Credentials.Digests.{Digests}
use us_stock_helper.DeviceAuth.Service.Types.{DeviceAuthService}
use us_stock_helper.DeviceAuth.Service.Operator.{CodeDraws, issue_pairing_code, revoke_device}
use us_stock_helper.DeviceAuth.Service.Device.{
  DeviceDraws, Decoy, redeem_pairing_code, verify_token,
}
use us_stock_helper.DeviceAuth.Service.Trace.{
  Runs, Runs-none, Runs-trans, issue-IsTraced, revoke-IsTraced, redeem-IsTraced, verify-IsTraced,
}

-- The methods that write, with what a caller, the clock and the random source give them.
pub data Request : Type 0 where
  issue : CodeDraws → Instant → PyValue → Request
  revoke : Text → Instant → PyValue → Request
  redeem : DeviceDraws → Instant → PyValue → PyValue → Request
  verify : Instant → PyValue → Request

-- The store that a request leaves, whether it is answered or raises.
unfoldable pub serve : DeviceAuthService → Digests → Decoy → Request → DeviceStore → DeviceStore
serve svc d decoy (issue draws now label) s = (issue_pairing_code svc d draws now label s).1
serve svc d decoy (revoke id now reason) s = (revoke_device id now reason s).1
serve svc d decoy (redeem draws now code client) s =
    (redeem_pairing_code svc d draws now code client s).1
serve svc d decoy (verify now token) s = (verify_token d decoy now token s).1

unfoldable pub serve_all :
    DeviceAuthService → Digests → Decoy → List Request → DeviceStore → DeviceStore
serve_all svc d decoy [] s = s
serve_all svc d decoy (r ∷ rs) s = serve_all svc d decoy rs (serve svc d decoy r s)

serve-Runs :
    (svc : DeviceAuthService) (d : Digests) (decoy : Decoy) (r : Request) (s : DeviceStore)
    → Runs s (serve svc d decoy r s)
unfolding serve
serve-Runs svc d decoy (issue draws now label) s = (issue-IsTraced svc d draws now label).at s
serve-Runs svc d decoy (revoke id now reason) s = (revoke-IsTraced id now reason).at s
serve-Runs svc d decoy (redeem draws now code client) s =
    (redeem-IsTraced svc d draws now code client).at s
serve-Runs svc d decoy (verify now token) s = (verify-IsTraced d decoy now token).at s

-- Whatever requests the service answers or fails on, the store that is left is one that a run of the
-- store's transactions makes of the first.
pub history-Runs :
    (svc : DeviceAuthService) (d : Digests) (decoy : Decoy) (requests : List Request)
    (s : DeviceStore)
    → Runs s (serve_all svc d decoy requests s)
unfolding serve_all
history-Runs svc d decoy [] s = Runs-none s
history-Runs svc d decoy (r ∷ rs) s =
    Runs-trans s (serve svc d decoy r s) (serve_all svc d decoy rs (serve svc d decoy r s))
      (serve-Runs svc d decoy r s) (history-Runs svc d decoy rs (serve svc d decoy r s))
