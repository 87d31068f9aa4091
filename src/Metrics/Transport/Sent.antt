-- ===== src/Metrics/Transport/Sent.antt =====
-- What the client sends and trusts.
use gpu_budget_operator.Base.{
  String, ◌<>◌, true, false, none, some, [], ◌∷◌, Result, ok, err, ◌≡◌, ◌≢◌, refl, sym, ap, ◌∙◌,
  ◌⊎◌, inl, inr, arith, Bool-cases, Option-cases, Result-cases, Call-cases, ==_refl,
}
use gpu_budget_operator.Base.Dict.{lookup, lookup-insert}
use gpu_budget_operator.Cluster.{Cluster}
use gpu_budget_operator.Enforce.Report.{Error, client, wrapped}
use gpu_budget_operator.Metrics.Transport.{
  service_ca_cert_file, service_account_token_file, trim_space, Request, authorized, Transport, Net,
  transport_of, build_transport, client_of, new_client, base_sent, sent_with, round_trip,
}
use gpu_budget_operator.Metrics.Transport.Trimmed.{IsTrimmed, trim_space-IsTrimmed}

-- The request is the other one with a bearer token of the text, its blanks at the ends left out.
pub record IsAuthorized (token : String) (req sent : Request) : Type 0 where
  pub bearer :
      (t : String) × IsTrimmed token t
      × (lookup "Authorization" sent.header ≡ some (("Bearer " <> t) ∷ []))
  pub others : (k : String) → k ≢ "Authorization" → lookup k sent.header ≡ lookup k req.header
  pub target : sent.target ≡ req.target

authorized-IsAuthorized :
    (token : String) (req : Request) → IsAuthorized token req (authorized token req)
unfolding authorized
authorized-IsAuthorized token req =
    let set = λ (k : String).
      lookup-insert k "Authorization" (("Bearer " <> trim_space token) ∷ []) req.header in
    record {
      bearer = (
        trim_space token,
        trim_space-IsTrimmed token,
        ground (arith, set "Authorization", ==_refl "Authorization"),
      );
      others = λ k h. ground (arith, set k, h);
      target = refl;
    }

module _ (c : Cluster) (net : Net c) where
  -- How a request goes out, by what the read of the token file answers: with its token, as it is where
  -- there is no file, or not at all.
  abbrev pub IsSent :
      Transport net.Pool → Request → c.State → Result (Error c.Err) net.Response × c.State → Type 0
  IsSent t req s answer =
      ((token : String) × (s' : c.State) × (sent : Request) × (net.read_file
            service_account_token_file s
          ≡ (ok token, s'))
        × IsAuthorized token req sent
        × (answer ≡ base_sent c net (net.base_round_trip t sent s')))
      ⊎ ((e : c.Err) × (s' : c.State) × (net.read_file service_account_token_file s ≡ (err e, s'))
          × (net.is_not_exist e ≡ true)
          × (answer ≡ base_sent c net (net.base_round_trip t req s')))
      ⊎ ((e : c.Err) × (s' : c.State) × (net.read_file service_account_token_file s ≡ (err e, s'))
          × (net.is_not_exist e ≡ false)
          × (answer ≡ (
            err (
                wrapped ("reading bearer token file " <> net.quote service_account_token_file)
                  (client e)),
            s',
          )))

  -- A request goes out once, over the given transport. It carries the bearer token that the file has
  -- at that moment, without the blanks around it, and is otherwise the same; where there is no token
  -- file it goes out as it is; and where the file cannot be read nothing is sent.
  pub round_trip-IsSent :
      (t : Transport net.Pool) (req : Request) (s : c.State)
      → IsSent t req s (round_trip c net t req s)
  unfolding round_trip sent_with
  round_trip-IsSent t req s = elim (Call-cases (net.read_file service_account_token_file s)) [
    | inl (token, s', e) ↦
        inl (token, s', authorized token req, e, authorized-IsAuthorized token req, rw e refl)
    | inr (x, s', e) ↦ elim (Bool-cases (net.is_not_exist x)) [
      | inl p ↦ inr (inl (x, s', e, p, ground (arith, e, p)))
      | inr p ↦ inr (inr (x, s', e, p, ground (arith, e, p)))
    ]
  ]

  -- The transport that the file of the service CA stands for: its certificates alone, or the system's
  -- trust store where there is no file.
  abbrev pub IsTrusting : c.State → Transport net.Pool → Type 0
  IsTrusting s t =
      ((pem : String) × (pool : net.Pool) × ((net.read_file service_ca_cert_file s).0 ≡ ok pem)
        × (net.cert_pool pem ≡ some pool)
        × (t.root_cas ≡ some pool))
      ⊎ ((e : c.Err) × ((net.read_file service_ca_cert_file s).0 ≡ err e)
          × (net.is_not_exist e ≡ true)
          × (t.root_cas ≡ none))

  built_lem :
      (s : c.State) (t : Transport net.Pool)
      → transport_of c net (net.read_file service_ca_cert_file s).0 ≡ ok t
      → IsTrusting s t
  unfolding transport_of
  built_lem s t h = elim (Result-cases (net.read_file service_ca_cert_file s).0) [
    | inl (pem, e) ↦ elim (Option-cases (net.cert_pool pem)) [
      | inl p ↦ absurd (ground (arith, e, p, h))
      | inr (pool, p) ↦ inl (pem, pool, e, p, ground (arith, e, p, h))
    ]
    | inr (x, e) ↦ elim (Bool-cases (net.is_not_exist x)) [
      | inl p ↦ inr (x, e, p, ground (arith, e, p, h))
      | inr p ↦ absurd (ground (arith, e, p, h))
    ]
  ]

  client_lem :
      (address : String) (t : Transport net.Pool) (api : net.Api)
      → client_of c net address (ok t) ≡ ok api
      → net.prom_client address t ≡ ok api
  unfolding client_of
  client_lem address t api h = elim (Result-cases (net.prom_client address t)) [
    | inl (a, e) ↦ ground (arith, e, h)
    | inr (x, e) ↦ absurd (ground (arith, e, h))
  ]

  -- A client that is built speaks to the given address and trusts the certificates of the service CA
  -- file, or the system's where there is no such file: a file that cannot be read, or that holds no
  -- certificate, never leaves a client with the system's trust store.
  pub new_client-IsTrusting :
      (address : String) (s : c.State) (api : net.Api)
      → (new_client c net address s).0 ≡ ok api
      → (t : Transport net.Pool) × IsTrusting s t × (net.prom_client address t ≡ ok api)
  unfolding new_client build_transport client_of
  new_client-IsTrusting address s api h =
      elim (Result-cases (transport_of c net (net.read_file service_ca_cert_file s).0)) [
        | inl (t, e) ↦ (
          t,
          built_lem s t e,
          client_lem address t api (ap (client_of c net address) (sym e) ∙ h),
        )
        | inr (x, e) ↦ absurd (ground (arith, e, h))
      ]
