-- ===== src/Tests/Files.antt =====
-- The metrics client beside a mounted token, with no service CA file.
use gpu_budget_operator.Fmt.{is_space}
use gpu_budget_operator.Base.{
  string_dec, String, ◌<>◌, none, some, [], ◌∷◌, ok, err, ◌≡◌, refl, ◌==◌, if◌then◌else◌,
}
use gpu_budget_operator.Metrics.Transport.{
  service_account_token_file, Request, Transport, Net, new_client, round_trip,
}
use gpu_budget_operator.Metrics.Transport.Sent.{
  IsSent, IsTrusting, round_trip-IsSent, new_client-IsTrusting,
}
use gpu_budget_operator.Tests.Store.{missing, is_missing}
use gpu_budget_operator.Tests.Memory.{memory}
use gpu_budget_operator.Tests.Data.{team}

-- A response is the request that it answers.
abbrev net : Net memory
net = record {
  Pool = String;
  Response = Request;
  Api = String × Transport String;
  read_file =
      λ path s. (if path == service_account_token_file then ok " secret\n" else err missing, s);
  is_not_exist = is_missing;
  cert_pool = λ pem. some pem;
  quote = λ s. "\"" <> s <> "\"";
  prom_client = λ address t. ok (address, t);
  base_round_trip = λ t req s. (ok req, s);
}

abbrev system : Transport String
system = record { root_cas = none }

abbrev asked : Request
asked = record { header = ("Accept", "application/json" ∷ []) ∷ []; target = "/api/v1/query" }

round_trip-IsSent_example :
    IsSent memory net system asked team (round_trip memory net system asked team)
round_trip-IsSent_example = round_trip-IsSent memory net system asked team

round_trip_test :
    (round_trip memory net system asked team).0
    ≡ ok (record asked {
      header = ("Accept", "application/json" ∷ []) ∷ ("Authorization", "Bearer secret" ∷ []) ∷ [];
    })
unfolding round_trip string_dec is_space
round_trip_test = refl

new_client-IsTrusting_example :
    (t : Transport String) × IsTrusting memory net team t
    × (net.prom_client "https://thanos:9091" t ≡ ok ("https://thanos:9091", system))
unfolding new_client string_dec
new_client-IsTrusting_example =
    new_client-IsTrusting memory net "https://thanos:9091" team ("https://thanos:9091", system) refl
