-- ===== src/Tests/Resets.antt =====
-- Requests for resets, the opening of listeners, and a failing `OnOpen`.
use getty.Common.{◌≡◌, ◌≤◌, refl, true, false, none, some, [], ◌∷◌, arith}
use getty.Errors.{panicked}
use getty.Constants.{tcp_server}
use getty.Options.{ServerOptions}
use getty.Tls.{Config, init_config}
use getty.Session.Resets.{
  Resets, init_resets, reset_async, try_reset, end_worker, enter_callback, Reach, new, next, asks,
  enters, tries,
}
use getty.Session.Resets.Answers.{answers, end_worker-answers}
use getty.Server.Endpoints.{Outside, listen}

-- Two requests, and a callback that tries one.
abbrev asked : Resets
asked = (try_reset (enter_callback (reset_async (reset_async init_resets)))).1

asked-Reach : Reach asked
asked-Reach = next (next (next (next new asks) asks) enters) tries

tried_in_callback : (try_reset (enter_callback init_resets)).1 ≡ enter_callback init_resets
unfolding try_reset enter_callback
tried_in_callback = refl

end_worker-answers_example :
    (asked.workers ≤ 1)
    × (answers 1 asked.sent ≤ 1)
    × (answers 1 (end_worker (some panicked) asked).sent ≡ 1)
unfolding try_reset enter_callback
end_worker-answers_example = end_worker-answers asked (some panicked) 1 asked-Reach (omega arith)

-- A server that is closed while its TLS listener is opened.
abbrev certified : Config
certified = record init_config { certificates = 4 ∷ [] }

abbrev closing : Outside
closing = record {
  random_port = none;
  at_address = none;
  resolve = none;
  build = (some certified, none);
  has_callback = λ c. false;
  closed_before = false;
  closed_then = true;
  closed_at_loop = true;
}

abbrev secure_server : ServerOptions
secure_server = record {
  addr = "127.0.0.1:1000";
  ssl_enabled = true;
  tls_config_builder = some 1;
  path = "";
  cert = "";
  private_key = "";
  ca_cert = "";
  t_pool = none;
}

closed_again : (listen closing tcp_server secure_server).closed ≡ 1
unfolding listen
closed_again = refl
