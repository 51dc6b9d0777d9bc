-- ===== src/Tests/Sdk.antt =====
-- A concrete event type that has the laws of the CloudEvents SDK.
use event_driven.Prelude.{ℕ, Bytes, ◌≡◌, refl, List, [], some, insert, lookup-insert, arith}
use event_driven.Error.{ok}
use event_driven.Event.CloudEvents.{CloudEvents}

pub record TestEvent : Type 0 where
  pub id : Bytes
  pub type : Bytes
  pub source : Bytes
  pub content : Bytes
  pub extensions : List (Bytes × Bytes)

pub set_json_extensions :
    (b : Bytes) (e e' : TestEvent)
    → ok (record e { content = b }) ≡ ok e'
    → e'.extensions ≡ e.extensions
set_json_extensions b e e' h = ground arith

abbrev pub test_sdk : CloudEvents
test_sdk = record {
  Event = TestEvent;
  Value = Bytes;
  text = λ b. b;
  as_text = λ v. some v;
  Time = ℕ;
  new = record { id = []; type = []; source = []; content = []; extensions = [] };
  id = λ e. e.id;
  type = λ e. e.type;
  source = λ e. e.source;
  content = λ e. e.content;
  extensions = λ e. e.extensions;
  set_id = λ b e. record e { id = b };
  set_type = λ b e. record e { type = b };
  set_source = λ b e. record e { source = b };
  set_time = λ t e. e;
  set_extension = λ k v e. record e { extensions = insert k v e.extensions };
  set_json = λ b e. ok (record e { content = b });
  as_text-text = λ b. refl;
  set_extension-lookup = λ k j v e _. lookup-insert k j v e.extensions;
  set_extension-id = λ k v e. refl;
  set_extension-type = λ k v e. refl;
  set_extension-content = λ k v e. refl;
  new-extensions = refl;
  set_id-extensions = λ b e. refl;
  set_type-extensions = λ b e. refl;
  set_source-extensions = λ b e. refl;
  set_time-extensions = λ t e. refl;
  set_json-extensions = set_json_extensions;
}
