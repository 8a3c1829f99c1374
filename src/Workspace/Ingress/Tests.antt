-- ===== src/Workspace/Ingress/Tests.antt =====
-- A request for a domain of one's own, with a network that fails.
use ha_cluster.Base.{Bool, String, Value, [], false, none, num, pos, some, true, ◌≡◌, ◌⊎◌}
use ha_cluster.Session.World.{ApiError, done, thrown}
use ha_cluster.Session.Handler.{told}
use ha_cluster.Workspace.Sample.{js, session}
use ha_cluster.Workspace.Ingress.{
  Machine, asks_second, custom_source, ingress_request, lacks_purpose, purpose_message, random,
  submit_ingress,
}
use ha_cluster.Workspace.Ingress.Laws.{submit_ingress-cases}

abbrev machine : Machine
machine = record {
  project = some (record { id = "p1"; purpose = some "Sells snacks"; my_role = some "owner" });
  conn = none;
  conn_err = "";
  routes = [];
  zones = [];
  domain_source = custom_source;
  prefix_mode = random;
  prefix = "";
  domain = "shop.example.com";
  port = "8080";
  preset = "nocache";
  extra_nginx = "";
  show_extra = false;
  form_err = "";
  second_open = false;
  ingress_open = true;
  pending_second = false;
  logs = [];
  logs_err = "";
  toasts = [];
}

abbrev no_case : String → String
no_case s = s

abbrev port_number : String → Value
port_number s = num (pos 8080)

submit_ingress-cases_example :
    let (s', w') = submit_ingress js no_case port_number "w1" false machine session in
    let r = ingress_request js no_case port_number "w1" false machine session in
    let asks : ApiError → Bool = λ e. asks_second js no_case port_number "w1" e in
    ((lacks_purpose no_case machine ≡ true)
      × (s' ≡ record machine { form_err = purpose_message })
      × (w' ≡ session))
    ⊎ ((lacks_purpose no_case machine ≡ false)
        × (((e : ApiError) × (r.0 ≡ thrown e)
              × (w' ≡ r.1)
              × (s'.domain ≡ machine.domain)
              × (s'.prefix ≡ machine.prefix)
              × (s'.ingress_open ≡ machine.ingress_open)
              × (((asks e ≡ true) × (s'.second_open ≡ true) × (s'.form_err ≡ ""))
                  ⊎ ((asks e ≡ false)
                      × (s'.second_open ≡ machine.second_open)
                      × (s'.form_err ≡ told no_case e))))
            ⊎ ((v : Value) × (r.0 ≡ done v)
                × (s'.domain ≡ "")
                × (s'.prefix ≡ "")
                × (s'.ingress_open ≡ false))))
submit_ingress-cases_example =
    submit_ingress-cases js no_case port_number "w1" false machine session
