-- ===== src/Metrics/Transport.antt =====
-- metrics/prometheus.go: `NewClient`, `buildTransport` and `RoundTrip` of `bearerTokenRoundTripper`.
-- Reading a file, certificate pools, the base transport, promapi's `NewClient` and the quoting of
-- `%q` are parameters.
pub mod Trimmed
pub mod Sent
use Prim.Native.Char.{Char}
use gpu_budget_operator.Base.{
  String, ◌<>◌, Bool, true, false, Option, none, some, List, [], ◌∷◌, Result, ok, err,
  if◌then◌else◌,
}
use gpu_budget_operator.Base.Dict.{Dict, insert}
use gpu_budget_operator.Fmt.{is_space}
use gpu_budget_operator.Cluster.{Cluster}
use gpu_budget_operator.Enforce.Report.{Error, client, message, wrapped}

abbrev pub service_ca_cert_file : String
service_ca_cert_file = "/etc/gpu-budget-operator/service-ca/service-ca.crt"

abbrev pub service_account_token_file : String
service_account_token_file = "/var/run/secrets/kubernetes.io/serviceaccount/token"

unfoldable pub trim_left : String → String
trim_left String.[] = ""
trim_left (String.◌∷◌ c s) = elim (is_space c) [ true ↦ trim_left s | false ↦ String.◌∷◌ c s ]

-- `c` before a text whose end is trimmed.
unfoldable pub before_trimmed : Char → String → String
before_trimmed c String.[] = elim (is_space c) [ true ↦ "" | false ↦ String.◌∷◌ c "" ]
before_trimmed c (String.◌∷◌ d s) = String.◌∷◌ c (String.◌∷◌ d s)

unfoldable pub trim_right : String → String
unfolding before_trimmed
trim_right String.[] = ""
trim_right (String.◌∷◌ c s) = before_trimmed c (trim_right s)

-- `strings.TrimSpace`
unfoldable pub trim_space : String → String
unfolding trim_left trim_right
trim_space s = trim_right (trim_left s)

-- A request: its header, and the rest of it as one text.
pub record Request : Type 0 where
  pub header : Dict (List String)
  pub target : String

-- `req.Header.Set("Authorization", "Bearer "+strings.TrimSpace(token))` on a clone.
unfoldable pub authorized : String → Request → Request
unfolding trim_space insert
authorized token req = record req {
  header = insert "Authorization" (("Bearer " <> trim_space token) ∷ []) req.header;
}

-- A clone of the default transport with `TLSClientConfig.RootCAs`; `none` is the system's trust store.
pub record Transport (Pool : Type 0) : Type 0 where
  pub root_cas : Option Pool

module _ (c : Cluster) where
  -- What the client uses of Go's os, x509 and http packages, and of promapi.
  pub record Net : Type 1 where
    pub Pool : Type 0
    pub Response : Type 0
    pub Api : Type 0
    pub read_file : String → c.State → Result c.Err String × c.State
    pub is_not_exist : c.Err → Bool
    -- `AppendCertsFromPEM` on a new pool; `none` where it finds no certificate.
    pub cert_pool : String → Option Pool
    pub quote : String → String
    pub prom_client : String → Transport Pool → Result c.Err Api
    pub base_round_trip : Transport Pool → Request → c.State → Result c.Err Response × c.State

  module _ (net : Net) where
    -- The `switch` of `buildTransport`.
    unfoldable pub transport_of : Result c.Err String → Result (Error c.Err) (Transport net.Pool)
    transport_of (ok pem) = elim (net.cert_pool pem) [
      | none ↦ err (message ("no PEM certificates found in " <> net.quote service_ca_cert_file))
      | some pool ↦ ok (record { root_cas = some pool })
    ]
    transport_of (err e) = elim (net.is_not_exist e) [
      | true ↦ ok (record { root_cas = none })
      | false ↦
          err (wrapped ("reading service CA bundle " <> net.quote service_ca_cert_file) (client e))
    ]

    unfoldable pub build_transport : c.State → Result (Error c.Err) (Transport net.Pool) × c.State
    unfolding transport_of
    build_transport s =
        let (got, s') = net.read_file service_ca_cert_file s in (transport_of got, s')

    -- From the transport on.
    unfoldable pub client_of :
        String → Result (Error c.Err) (Transport net.Pool) → Result (Error c.Err) net.Api
    client_of address (err e) = err (wrapped ("building transport for " <> net.quote address) e)
    client_of address (ok t) = elim (net.prom_client address t) [
      | err e ↦ err (wrapped ("creating prometheus client for " <> net.quote address) (client e))
      | ok api ↦ ok api
    ]

    -- `NewClient`
    unfoldable pub new_client : String → c.State → Result (Error c.Err) net.Api × c.State
    unfolding build_transport client_of
    new_client address s = let (t, s') = build_transport s in (client_of address t, s')

    abbrev pub base_sent :
        Result c.Err net.Response × c.State → Result (Error c.Err) net.Response × c.State
    base_sent (ok r, s) = (ok r, s)
    base_sent (err e, s) = (err (client e), s)

    -- The `switch` of `RoundTrip`.
    unfoldable pub sent_with :
        Transport net.Pool
        → Request
        → Result c.Err String × c.State
        → Result (Error c.Err) net.Response × c.State
    unfolding authorized
    sent_with t req (ok token, s) = base_sent (net.base_round_trip t (authorized token req) s)
    sent_with t req (err e, s) = elim (net.is_not_exist e) [
      | true ↦ base_sent (net.base_round_trip t req s)
      | false ↦ (
        err (
            wrapped ("reading bearer token file " <> net.quote service_account_token_file)
              (client e)),
        s,
      )
    ]

    -- `RoundTrip`
    unfoldable pub round_trip :
        Transport net.Pool → Request → c.State → Result (Error c.Err) net.Response × c.State
    unfolding sent_with
    round_trip t req s = sent_with t req (net.read_file service_account_token_file s)
