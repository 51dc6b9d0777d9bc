-- ===== src/Tests/Wiring.antt =====
-- Wiring a concrete router.
use event_driven.Prelude.{ℕ, Bytes, str, refl, returned, [], ◌∷◌, some, none}
use event_driven.Mux.Types.{Mux, Middleware}
use event_driven.Mux.Registration.{PayloadType, new_mux_of}
use event_driven.Error.{ok}
use event_driven.Tests.Sdk.{test_sdk}
use event_driven.Tests.Router.{runtime, config, answer, reply, boom}

abbrev text_payload : PayloadType ℕ Bytes
text_payload = record {
  T = Bytes;
  type_name = str "string";
  unmarshal = λ b. answer (ok b);
  to_any = λ b. b;
  from_any = λ b. some b;
  name_of = λ b. str "string";
  from_any-to_any = λ v. refl;
}

-- A middleware that fails without calling the next handler.
abbrev block : Middleware ℕ Bytes
block next_ = returned (reply (none, some boom))

abbrev after_use : Mux test_sdk ℕ Bytes
after_use = record (new_mux_of runtime (config 3 none)) { middlewares = block ∷ [] }
